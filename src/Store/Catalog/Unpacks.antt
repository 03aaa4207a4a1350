-- ===== src/Store/Catalog/Unpacks.antt =====
-- `unpack` of pkg/ocistore/unpack.go changes no image record.
use mysnapshotter.Prelude.{some, List, refl, if◌then◌else◌, Error, wrap, Result, ok, err}
use mysnapshotter.Extractor.System.{M, pure, fail, ◌>>◌, lift, named, attempt}
use mysnapshotter.Store.Registry.{Descriptor}
use mysnapshotter.Store.Containerd.{Containerd, Image}
use mysnapshotter.Store.Options.{
  ApplyCommitOpts, ApplyCommitOpt, apply_options, no_apply_commit_opts,
}
use mysnapshotter.Store.Views.{Keeps, bind-Keeps, named-Keeps, settled-Keeps, if-Keeps}
use mysnapshotter.Store.Unpacking.{Unpacker, unpack_target, unpack}
use mysnapshotter.Store.Catalog.{Catalog}

-- The unpacker leaves the image records alone.
pub record IsUnpacking (C : Containerd) (L : Catalog C) (U : Unpacker C) : Type 0 where
  pub new_unpacker-Keeps : (o : ApplyCommitOpts C) → Keeps (Catalog.view L) (U.new_unpacker o)
  pub walk-Keeps : (d : Descriptor) → Keeps (Catalog.view L) (U.walk_not_empty d)
  pub wait-Keeps : Keeps (Catalog.view L) U.wait

module _ (C : Containerd) (L : Catalog C) (U : Unpacker C) (H : IsUnpacking C L U) where
  open C use {World}
  open L use {view}

  abbrev after_walk : Result (Unit {0}) → M World (Unit {0})
  after_walk r = elim r [
    | ok _ ↦ named "unpacking image" U.wait
    | err e ↦ do
      attempt U.wait
      if U.is_empty_walk e then pure tt else fail (wrap "walking image descriptors" e)
  ]

  unpack_target-Keeps : (d : Descriptor) → Keeps view (unpack_target C U d)
  unfolding unpack_target
  unpack_target-Keeps d =
      settled-Keeps view (U.walk_not_empty d) after_walk (H.walk-Keeps d)
        (λ _. named-Keeps view "unpacking image" U.wait H.wait-Keeps)
        (λ e.
          settled-Keeps view U.wait
            (λ _. if U.is_empty_walk e then pure tt else fail (wrap "walking image descriptors" e))
            H.wait-Keeps (λ _. empty_walk e) (λ _. empty_walk e))
    where
      empty_walk :
          (e : Error)
          → Keeps view
              (if U.is_empty_walk e then pure tt else fail (wrap "walking image descriptors" e))
      empty_walk e =
          if-Keeps view (U.is_empty_walk e) (pure tt) (fail (wrap "walking image descriptors" e))
            (λ w. refl) (λ w. refl)

  pub unpack-Keeps :
      (img : Image) (opts : List (ApplyCommitOpt C)) → Keeps view (unpack C U (some img) opts)
  unfolding unpack
  unpack-Keeps img opts =
      bind-Keeps view (lift (apply_options opts (no_apply_commit_opts C))) _ (λ w. refl)
        (λ o.
          bind-Keeps view (U.new_unpacker o) _ (H.new_unpacker-Keeps o)
            (λ _. unpack_target-Keeps img.target))
