-- ===== src/Store/Mounts/Scratch.antt =====
-- `Mount` of pkg/ocistore/mount.go without an image.
use mysnapshotter.Prelude.{
  Bool, true, false, Option, none, List, [], codes, ◌∷◌, ◌++◌, ◌≡◌, refl, Text, nil_pointer, Result,
  ok, err, if◌then◌else◌,
}
use mysnapshotter.Extractor.System.{M, pure, fail, after, settled, ◌>>=◌, ◌>>◌, lift}
use mysnapshotter.Store.Containerd.{Containerd}
use mysnapshotter.Store.Options.{apply_options}
use mysnapshotter.Store.Snapshots.{not_initiated, checked}
use mysnapshotter.Store.Unpacking.{Unpacker, unpack}
use mysnapshotter.Store.Mounts.{
  Clock, MountOpts, MountOpt, logging, mount_key, mount_lease, mount_parent, mount_snapshot,
  mount_target, mount_leased, end_mount, mount,
}

module _ (C : Containerd) (initiated : Bool) (K : Clock C.World) (U : Unpacker C) where
  open C use {World}

  -- The only error is the nil pointer.
  abbrev OnlyNil : {A : Type 0} → Result A × World → Type 0
  OnlyNil (ok a, w) = Unit
  OnlyNil (err e, w) = e ≡ nil_pointer

  abbrev logged_end : {A : Type 0} → Result A → M World A
  logged_end r = elim r [ ok a ↦ pure a | err e ↦ fail nil_pointer ]

  logged-OnlyNil : {A : Type 0} (x : Result A × World) → OnlyNil (after (settled x) logged_end)
  logged-OnlyNil (ok a, w) = tt
  logged-OnlyNil (err e, w) = refl

  bind-OnlyNil :
      {A B : Type 0} (x : Result A × World) (f : A → M World B)
      → OnlyNil x
      → ((a : A) (w : World) → OnlyNil (f a w))
      → OnlyNil (after x f)
  bind-OnlyNil (ok a, w) f h k = k a w
  bind-OnlyNil (err e, w) f h k = h

  unpack_step :
      (b : Bool) (m : M World (Unit {0})) (w : World)
      → OnlyNil ((if b then logging C initiated K U none m else pure tt) w)
  unpack_step true m w = logged-OnlyNil (m w)
  unpack_step false m w = tt

  mount_leased-OnlyNil :
      (target key : Text) (readonly : Bool) (m : MountOpts C) (w : World)
      → OnlyNil (mount_leased C initiated K U none target key readonly m w)
  unfolding mount_leased mount_parent
  mount_leased-OnlyNil target key readonly m w =
      bind-OnlyNil
        ((if m.unpack then logging C initiated K U none (unpack C U none m.a_opts) else pure tt) w)
        _ (unpack_step m.unpack (unpack C U none m.a_opts) w)
        (λ _ w1.
          let (t, w2) = K.now w1 in
          let opts =
            m.s_opts
            ++ (C.with_labels ((codes "containerd.io/gc.root", K.format_rfc3339 t) ∷ []) ∷ []) in
          bind-OnlyNil
            (logging C initiated K U none (mount_snapshot C initiated K U readonly key [] opts) w2)
            _ (logged-OnlyNil (mount_snapshot C initiated K U readonly key [] opts w2))
            (λ mounts w3. logged-OnlyNil (mount_target C initiated K U mounts target key w3)))

  abbrev with_key : Text → Result (Unit {0}) × World → Result Text × World
  with_key key (ok _, w) = (ok key, w)
  with_key key (err e, w) = (err e, w)

  end_mount-nil :
      (l : Option Text) (key : Text) (x : Result (Unit {0}) × World)
      → OnlyNil x
      → after (settled x) (end_mount C initiated K U l key) ≡ after x (λ _. pure key)
  unfolding end_mount
  end_mount-nil l key (ok _, w) h = refl
  end_mount-nil l key (err e, w) h = rw h refl

  after-cong :
      {A B : Type 0} (x : Result A × World) (f g : A → M World B)
      → ((a : A) (w : World) → f a w ≡ g a w)
      → after x f ≡ after x g
  after-cong (ok a, w) f g h = h a w
  after-cong (err e, w) f g h = refl

  checked-cong :
      {A : Type 0} (b : Bool) (m k : M World A)
      → ((w : World) → m w ≡ k w)
      → (w : World)
      → (if b then m else fail not_initiated) w ≡ (if b then k else fail not_initiated) w
  checked-cong true m k h w = h w
  checked-cong false m k h w = refl

  -- Without an image, whatever fails once the lease is made ends in a nil pointer that is followed, so
  -- that the lease is never ended: the mount is the same as one that has no step to end it.
  pub mount-without_image :
      (target key0 : Text) (readonly : Bool) (opts : List (MountOpt C)) (w : World)
      → mount C initiated K U none target key0 readonly opts w
        ≡ checked C initiated
            (do
              m ← lift (apply_options opts (record { s_opts = []; a_opts = []; unpack = false }))
              key ← mount_key C initiated K U target key0
              mount_lease C initiated K U key
              mount_leased C initiated K U none target key readonly m
              pure key)
            w
  unfolding mount
  mount-without_image target key0 readonly opts = checked-cong initiated _ _ (λ w.
      after-cong (lift (apply_options opts _) w) _ _ (λ m w1.
        after-cong (mount_key C initiated K U target key0 w1) _ _ (λ key w2.
          after-cong (mount_lease C initiated K U key w2) _ _ (λ l w3.
            end_mount-nil l key (mount_leased C initiated K U none target key readonly m w3)
              (mount_leased-OnlyNil target key readonly m w3)))))
