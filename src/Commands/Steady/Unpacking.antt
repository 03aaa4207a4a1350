-- ===== src/Commands/Steady/Unpacking.antt =====
-- `Unpack` and `Umount` keep an invariant that the libraries keep.
use mysnapshotter.Prelude.{
  ℕ, Bool, true, Option, none, some, List, if◌then◌else◌, Text, wrap, nil_pointer, is_not_found,
  Result, ok, err,
}
use mysnapshotter.Prelude.Int.{ℤ}
use mysnapshotter.Extractor.System.{M, pure, fail, ◌>>◌, named, attempt}
use mysnapshotter.Extractor.Maintaining.{
  IfOk, Whatever, Maintains, pure-Maintains, fail-Maintains, lift-Maintains, bind-Maintains,
  then-Maintains, named-Maintains, attempt-Maintains, settled-Maintains, if-Maintains,
}
use mysnapshotter.Extractor.Confined.{any_ok}
use mysnapshotter.Store.Registry.{Descriptor}
use mysnapshotter.Store.Containerd.{Containerd, Image}
use mysnapshotter.Store.Options.{ApplyCommitOpt, apply_options, no_apply_commit_opts}
use mysnapshotter.Store.Unpacking.{Unpacker, unpack_target, unpack, unpack_ref}
use mysnapshotter.Store.Images.{depth_of, is_none_removed, remove_mount, umount}
use mysnapshotter.Store.Mounts.{Clock}
use mysnapshotter.Commands.{Host, World}
use mysnapshotter.Commands.Steady.{IsSteady}
use mysnapshotter.Commands.Steady.Images.{
  checked-Maintains, tried-Maintains, leased-Maintains, leased_strictly-Maintains,
  get_image-Maintains, is_unpacked-Maintains, remove_snapshots_chain-Maintains,
}

module _ (H : Host) (Names Refs : Text → Type 0) (I : World H → Type 0)
    (S : IsSteady H Names Refs I) where
  abbrev C : Containerd
  C = H.containerd

  abbrev U : Unpacker H.containerd
  U = H.unpacker

  abbrev K : Clock (World H)
  K = H.clock

  abbrev walked : Result (Unit {0}) → M (World H) (Unit {0})
  walked r = elim r [
    | ok _ ↦ named "unpacking image" U.wait
    | err e ↦ do
      attempt U.wait
      if U.is_empty_walk e then pure tt else fail (wrap "walking image descriptors" e)
  ]

  unpack_target-Maintains : (d : Descriptor) → Maintains I Whatever (unpack_target C U d)
  unfolding unpack_target
  unpack_target-Maintains d =
      settled-Maintains I Whatever walked (S.walk_layers d) (λ _ _. named-Maintains I _ S.wait)
        (λ e.
          then-Maintains I (tried-Maintains H Names Refs I S true U.wait S.wait)
            (if-Maintains I (U.is_empty_walk e) (pure-Maintains I tt tt) (fail-Maintains I _)))

  pub unpack-Maintains :
      (img : Option Image) (opts : List (ApplyCommitOpt C))
      → Maintains I Whatever (unpack C U img opts)
  unfolding unpack
  unpack-Maintains none opts =
      bind-Maintains I Whatever
        (lift-Maintains I (apply_options opts (no_apply_commit_opts C)) (any_ok _))
        (λ o _. then-Maintains I (S.new_unpacker o) (fail-Maintains I nil_pointer))
  unpack-Maintains (some img) opts =
      bind-Maintains I Whatever
        (lift-Maintains I (apply_options opts (no_apply_commit_opts C)) (any_ok _))
        (λ o _. then-Maintains I (S.new_unpacker o) (unpack_target-Maintains img.target))

  module _ (initiated : Bool) where
    pub unpack_ref-Maintains :
        (ref : Text) (opts : List (ApplyCommitOpt C))
        → Maintains I Whatever (unpack_ref C initiated U ref opts)
    unfolding unpack_ref
    unpack_ref-Maintains ref opts = leased_strictly-Maintains H Names Refs I S initiated _ (
        bind-Maintains I Whatever
          (named-Maintains I "image not found" (get_image-Maintains H Names Refs I S initiated ref))
          (λ img _.
            bind-Maintains I Whatever
              (named-Maintains I "checking image"
                (is_unpacked-Maintains H Names Refs I S initiated img))
              (λ u _.
                if-Maintains I u (pure-Maintains I tt tt) (unpack-Maintains (some img) opts))))

    abbrev unleased : Result (Unit {0}) → M (World H) (Unit {0})
    unleased gone = elim gone [
      | ok _ ↦ pure tt
      | err e ↦ if is_not_found e then pure tt else fail (wrap "error deleting lease" e)
    ]

    unleased-Maintains : (r : Result (Unit {0})) → Maintains I Whatever (unleased r)
    unleased-Maintains (ok _) = pure-Maintains I tt tt
    unleased-Maintains (err e) =
        if-Maintains I (is_not_found e) (pure-Maintains I tt tt) (fail-Maintains I _)

    remove_mount-Maintains :
        (rounds : ℕ) (key : Text) (n : ℤ)
        → Maintains I Whatever (remove_mount C initiated rounds key n)
    unfolding remove_mount
    remove_mount-Maintains rounds key n =
        bind-Maintains I (IfOk Whatever) (attempt-Maintains I (S.lease_delete key)) (λ gone _.
          then-Maintains I (unleased-Maintains gone) (
            remove_snapshots_chain-Maintains H Names Refs I S initiated rounds key
              (depth_of C initiated n)))

    pub umount-Maintains :
        (rounds : ℕ) (target key : Text) (n : ℤ)
        → Maintains I Whatever (umount C initiated rounds target key n)
    unfolding umount
    umount-Maintains rounds target key n = checked-Maintains H Names Refs I S initiated (
        then-Maintains I (S.unmount_all target) (
          if-Maintains I (is_none_removed C initiated n) (pure-Maintains I tt tt)
            (leased-Maintains H Names Refs I S initiated (remove_mount-Maintains rounds key n))))
