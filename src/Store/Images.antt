-- ===== src/Store/Images.antt =====
-- pkg/ocistore/image.go, and `Umount` of mount.go.
use mysnapshotter.Prelude.{
  ℕ, ◌-◌, Bool, true, false, Option, none, some, List, eqb, if◌then◌else◌, Text, wrap, is_not_found,
  ok, err,
}
use mysnapshotter.Prelude.Int.{ℤ, pos, negsuc}
use mysnapshotter.Extractor.System.{M, pure, fail, ◌>>=◌, ◌>>◌, named, attempt}
use mysnapshotter.Store.Containerd.{Containerd, Image}
use mysnapshotter.Store.Snapshots.{checked, leased, remove_snapshots_chain}

module _ (C : Containerd) (initiated : Bool) where
  open C use {World}

  -- `Get`.
  unfoldable pub get_image : Text → M World Image
  get_image ref = checked C initiated (named "getting image from store" (C.image_get ref))

  -- `isUnpacked`: the snapshot of the image's chain of layers is there.
  unfoldable pub is_unpacked : Image → M World Bool
  is_unpacked img = checked C initiated (do
    diff_ids ← named "getting image rootfs" (C.root_fs img)
    found ← attempt (C.snapshot_stat (C.chain_id diff_ids))
    (elim found [
      | ok _ ↦ pure true
      | err e ↦
          if is_not_found e then pure false else fail (wrap "looking for image in snapshotter" e)
    ]))

  -- `List`.
  unfoldable pub list_images : M World (List Image)
  list_images = checked C initiated C.image_list

  -- `delete`, with rounds for the walk over the snapshots: first these, then the image.
  unfoldable pub delete_leased : ℕ → Text → M World (Unit {0})
  unfolding get_image is_unpacked remove_snapshots_chain
  delete_leased rounds name = do
    img ← get_image name
    unpacked ← is_unpacked img
    (if unpacked
        then (do
          diff_ids ← C.root_fs img
          remove_snapshots_chain C initiated rounds (C.chain_id diff_ids) none)
        else pure tt)
    C.image_delete name

  -- `Delete`.
  unfoldable pub delete_image : ℕ → Text → M World (Unit {0})
  unfolding leased delete_leased
  delete_image rounds name = leased C initiated (delete_leased rounds name)

  -- `Update`.
  unfoldable pub update_image : Image → List Text → M World Image
  unfolding leased
  update_image img fields = leased C initiated (C.image_update img fields)

  -- `Create`.
  unfoldable pub create_image : Image → M World Image
  unfolding leased
  create_image img = leased C initiated (C.image_create img)

  -- The depth of `removeSnapshotsChain` for a number of snapshots other than 0: a negative one is
  -- the whole chain.
  abbrev pub depth_of : ℤ → Option ℕ
  depth_of (pos n) = some (n - 1)
  depth_of (negsuc _) = none

  abbrev pub is_none_removed : ℤ → Bool
  is_none_removed (pos n) = eqb n 0
  is_none_removed (negsuc _) = false

  -- What `Umount` removes under its lease: the mount's own lease, and the snapshots.
  unfoldable pub remove_mount : ℕ → Text → ℤ → M World (Unit {0})
  unfolding remove_snapshots_chain
  remove_mount rounds key remove_snap = do
    gone ← attempt (C.lease_delete key)
    (elim gone [
      | ok _ ↦ pure tt
      | err e ↦ if is_not_found e then pure tt else fail (wrap "error deleting lease" e)
    ])
    remove_snapshots_chain C initiated rounds key (depth_of remove_snap)

  -- `Umount`.
  unfoldable pub umount : ℕ → Text → Text → ℤ → M World (Unit {0})
  unfolding leased remove_mount
  umount rounds target key remove_snap = checked C initiated (do
    C.unmount_all target
    if is_none_removed remove_snap
        then pure tt
        else leased C initiated (remove_mount rounds key remove_snap))
