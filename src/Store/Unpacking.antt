-- ===== src/Store/Unpacking.antt =====
-- pkg/ocistore/unpack.go. containerd's unpacker is a parameter.
use mysnapshotter.Prelude.{
  String, Bool, Option, none, some, List, [], if◌then◌else◌, Text, Error, wrap, nil_pointer, Result,
  ok, err,
}
use mysnapshotter.Extractor.System.{M, pure, fail, ◌>>=◌, ◌>>◌, lift, named, attempt}
use mysnapshotter.Store.Registry.{Descriptor}
use mysnapshotter.Store.Containerd.{Containerd, Image}
use mysnapshotter.Store.Options.{
  ApplyCommitOpts, ApplyCommitOpt, no_apply_commit_opts, apply_options,
}
use mysnapshotter.Store.Snapshots.{checked, with_lease, end_lease}
use mysnapshotter.Store.Images.{get_image, is_unpacked}

-- `unpack.NewUnpacker` with the options, `images.WalkNotEmpty` over the children of the store's platform with the
-- unpacker's handler, and `Wait`. `is_empty_walk` is the test whether `images.ErrEmptyWalk` is the
-- error.
pub record Unpacker (C : Containerd) : Type 0 where
  pub new_unpacker : ApplyCommitOpts C → C.World → Result (Unit {0}) × C.World
  pub walk_not_empty : Descriptor → C.World → Result (Unit {0}) × C.World
  pub wait : C.World → Result (Unit {0}) × C.World
  pub is_empty_walk : Error → Bool

module _ (C : Containerd) (U : Unpacker C) where
  open C use {World}

  -- `unpack` once the image's descriptor is read. After a failed walk the unpacker cleans up, and its
  -- own error is dropped.
  unfoldable pub unpack_target : Descriptor → M World (Unit {0})
  unpack_target desc = do
    r ← attempt (U.walk_not_empty desc)
    (elim r [
      | ok _ ↦ named "unpacking image" U.wait
      | err e ↦ do
        attempt U.wait
        if U.is_empty_walk e then pure tt else fail (wrap "walking image descriptors" e)
    ])

  -- `unpack`. The image may be a nil pointer.
  unfoldable pub unpack : Option Image → List (ApplyCommitOpt C) → M World (Unit {0})
  unfolding unpack_target apply_options
  unpack none opts = do
    o ← lift (apply_options opts (no_apply_commit_opts C))
    U.new_unpacker o
    fail nil_pointer
  unpack (some img) opts = do
    o ← lift (apply_options opts (no_apply_commit_opts C))
    U.new_unpacker o
    unpack_target img.target

module _ (C : Containerd) (initiated : Bool) where
  open C use {World}

  -- The end of an operation whose deferred function makes an error of ending the lease the
  -- operation's, if it has none.
  unfoldable pub end_strictly : {A : Type 0} → Option Text → Result A → M World A
  unfolding end_lease
  end_strictly l (err e) = do attempt (end_lease C initiated l); fail e
  end_strictly l (ok a) = do end_lease C initiated l; pure a

  -- An operation under a lease of its own, with such a deferred function.
  unfoldable pub leased_strictly : {A : Type 0} → String → M World A → M World A
  unfolding with_lease end_strictly
  leased_strictly s body =
      checked C initiated
        (do l ← named s (with_lease C initiated none []); r ← attempt body; end_strictly l r)

  -- `Unpack`.
  unfoldable pub unpack_ref : Unpacker C → Text → List (ApplyCommitOpt C) → M World (Unit {0})
  unfolding leased_strictly get_image is_unpacked unpack
  unpack_ref U ref opts = leased_strictly "creating lease to unpack" (do
    img ← named "image not found" (get_image C initiated ref)
    unpacked ← named "checking image" (is_unpacked C initiated img)
    if unpacked then pure tt else unpack C U (some img) opts)
