-- ===== src/Store/Mounts.antt =====
-- `Mount` of pkg/ocistore/mount.go. The clock and the random part of a name are parameters.
pub mod Scratch
use mysnapshotter.Prelude.{
  ℕ, Bool, true, false, Option, none, some, List, [], ◌∷◌, ◌++◌, map, reverse, eqb, if◌then◌else◌,
  Text, codes, ◌==◌, Error, nil_pointer, is_already_exists, Result, ok, err,
}
use mysnapshotter.Prelude.Int.{ℤ}
use mysnapshotter.Extractor.System.{M, pure, fail, ◌>>=◌, ◌>>◌, lift, attempt}
use mysnapshotter.Store.Containerd.{Labels, Containerd, Image, driver, label_snapshot_img_ref}
use mysnapshotter.Store.Options.{ApplyCommitOpt, apply_options}
use mysnapshotter.Store.Snapshots.{checked, with_lease, end_lease}
use mysnapshotter.Store.Unpacking.{Unpacker, unpack}

-- `time.Now`, `Format(time.RFC3339)` of a time in UTC, and `uniquePart`.
pub record Clock (World : Type 0) : Type 0 where
  pub now : World → ℤ × World
  pub format_rfc3339 : ℤ → Text
  pub unique_part : World → Text × World

-- `MountOpts`, with the functions that set it.
pub record MountOpts (C : Containerd) : Type 0 where
  pub s_opts : List C.SnapshotOpt
  pub a_opts : List (ApplyCommitOpt C)
  pub unpack : Bool

abbrev pub MountOpt : Containerd → Type 0
MountOpt C = MountOpts C → Result (MountOpts C)

abbrev pub with_mount_unpack : (C : Containerd) → MountOpt C
with_mount_unpack C m = ok (record m { unpack = true })

abbrev pub with_mount_snapshot_opts : (C : Containerd) → List C.SnapshotOpt → MountOpt C
with_mount_snapshot_opts C opts m = ok (record m { s_opts = m.s_opts ++ opts })

abbrev pub with_mount_apply_commit_opts : (C : Containerd) → List (ApplyCommitOpt C) → MountOpt C
with_mount_apply_commit_opts C opts m = ok (record m { a_opts = m.a_opts ++ opts })

-- `strings.Trim(s, "/")` and `strings.ReplaceAll(s, "/", "-")`; 47 is the slash and 45 the dash.
unfoldable pub trim_slashes_left : Text → Text
trim_slashes_left [] = []
trim_slashes_left (c ∷ s) = let rest = trim_slashes_left s in if eqb c 47 then rest else c ∷ s

unfoldable pub target_part : Text → Text
unfolding trim_slashes_left
target_part target =
    map (λ c. if eqb c 47 then 45 else c)
      (reverse (trim_slashes_left (reverse (trim_slashes_left target))))

-- An error that is logged with the name of the image, which may be a nil pointer.
abbrev pub logged : Option Image → Error → Error
logged none e = nil_pointer
logged (some img) e = e

-- A panic leaves the function's error result as it was.
abbrev pub is_panic : Error → Bool
is_panic nil_pointer = true
is_panic _ = false

module _ (C : Containerd) (initiated : Bool) (K : Clock C.World) (U : Unpacker C) where
  open C use {World, Mounts, SnapshotOpt}

  -- `m`, whose error is logged with the name of the image.
  abbrev pub logging : {A : Type 0} → Option Image → M World A → M World A
  logging img m = do r ← attempt m; (elim r [ ok a ↦ pure a | err e ↦ fail (logged img e) ])

  -- The key of the snapshot.
  unfoldable pub mount_key : Text → Text → M World Text
  unfolding target_part
  mount_key target key w =
      if key == []
      then (let (u, w') = K.unique_part w in (ok (u ++ codes "-" ++ target_part target), w'))
      else (ok key, w)

  -- The lease of the mount, named by the key; there may be one already, which is left alone.
  unfoldable pub mount_lease : Text → M World (Option Text)
  unfolding with_lease
  mount_lease key = do
    r ← attempt (
        with_lease C initiated (some key)
          ((codes "containerd.io/gc.ref.snapshot." ++ driver, key) ∷ []))
    (elim r [ ok l ↦ pure l | err e ↦ if is_already_exists e then pure none else fail e ])

  -- The parent and the labels of the snapshot.
  unfoldable pub mount_parent : ℤ → Option Image → M World (Text × Labels)
  mount_parent now none = pure ([], (codes "containerd.io/gc.root", K.format_rfc3339 now) ∷ [])
  mount_parent now (some img) = do
    diff_ids ← C.root_fs img
    pure (C.chain_id diff_ids, (label_snapshot_img_ref, img.name) ∷ [])

  -- The snapshot: a view or an active one, or the one that is there.
  unfoldable pub mount_snapshot : Bool → Text → Text → List SnapshotOpt → M World Mounts
  mount_snapshot readonly key parent opts = do
    r ←
        attempt
          (if readonly then C.snapshot_view key parent opts else C.snapshot_prepare key parent opts)
    (elim r [
      | ok mounts ↦ pure mounts
      | err e ↦ if is_already_exists e then C.snapshot_mounts key else fail e
    ])

  -- `mount.All`; if it fails the snapshot is removed.
  unfoldable pub mount_target : Mounts → Text → Text → M World (Unit {0})
  mount_target mounts target key = do
    r ← attempt (C.mount_all mounts target)
    (elim r [ ok _ ↦ pure tt | err e ↦ do attempt (C.snapshot_remove key); fail e ])

  -- `Mount` under its lease.
  unfoldable pub mount_leased : Option Image → Text → Text → Bool → MountOpts C → M World (Unit {0})
  unfolding unpack mount_parent mount_snapshot mount_target
  mount_leased img target key readonly m = do
    (if m.unpack then logging img (unpack C U img m.a_opts) else pure tt)
    now ← (λ w. let (t, w') = K.now w in (ok t, w'))
    (parent, labels) ← logging img (mount_parent now img)
    mounts ←
        logging img (mount_snapshot readonly key parent (m.s_opts ++ (C.with_labels labels ∷ [])))
    logging img (mount_target mounts target key)

  -- The end of `Mount`: an error ends the lease, a panic does not.
  unfoldable pub end_mount : Option Text → Text → Result (Unit {0}) → M World Text
  unfolding end_lease
  end_mount l key (ok _) = pure key
  end_mount l key (err e) =
      if is_panic e then fail e else (do attempt (end_lease C initiated l); fail e)

  -- `Mount`.
  unfoldable pub mount : Option Image → Text → Text → Bool → List (MountOpt C) → M World Text
  unfolding mount_key mount_lease mount_leased end_mount apply_options
  mount img target key0 readonly opts = checked C initiated (do
    m ← lift (apply_options opts (record { s_opts = []; a_opts = []; unpack = false }))
    key ← mount_key target key0
    l ← mount_lease key
    r ← attempt (mount_leased img target key readonly m)
    end_mount l key r)

  -- `MountFromScratch`.
  unfoldable pub mount_from_scratch : Text → Text → M World Text
  unfolding mount
  mount_from_scratch target key = mount none target key false []
