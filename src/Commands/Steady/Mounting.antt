-- ===== src/Commands/Steady/Mounting.antt =====
-- `Mount` keeps an invariant that the libraries keep.
use mysnapshotter.Prelude.{
  Bool, Option, none, some, List, [], ◌∷◌, ◌++◌, if◌then◌else◌, by_if, Text, ◌==◌,
  is_already_exists, Result, ok, err,
}
use mysnapshotter.Prelude.Int.{ℤ}
use mysnapshotter.Extractor.System.{M, pure, fail, ◌>>◌, attempt}
use mysnapshotter.Extractor.Maintaining.{
  IfOk, Whatever, Maintains, pure-Maintains, fail-Maintains, lift-Maintains, bind-Maintains,
  then-Maintains, attempt-Maintains, settled-Maintains, if-Maintains,
}
use mysnapshotter.Extractor.Confined.{any_ok}
use mysnapshotter.Store.Containerd.{Containerd, Image}
use mysnapshotter.Store.Options.{apply_options}
use mysnapshotter.Store.Unpacking.{Unpacker}
use mysnapshotter.Store.Snapshots.{end_lease}
use mysnapshotter.Store.Mounts.{
  Clock, MountOpts, MountOpt, logged, is_panic, logging, mount_key, mount_lease, mount_parent,
  mount_snapshot, mount_target, mount_leased, end_mount, mount,
}
use mysnapshotter.Commands.{Host, World}
use mysnapshotter.Commands.Steady.{IsSteady}
use mysnapshotter.Commands.Steady.Images.{
  checked-Maintains, with_lease-Maintains, end_lease-Maintains, tried-Maintains,
}
use mysnapshotter.Commands.Steady.Unpacking.{unpack-Maintains}

module _ (H : Host) (Names Refs : Text → Type 0) (I : World H → Type 0)
    (S : IsSteady H Names Refs I) where
  abbrev C : Containerd
  C = H.containerd

  abbrev U : Unpacker H.containerd
  U = H.unpacker

  abbrev K : Clock (World H)
  K = H.clock

  module _ (initiated : Bool) where
    abbrev relog : {A : Type 0} → Option Image → Result A → M (World H) A
    relog img r = elim r [ ok a ↦ pure a | err e ↦ fail (logged img e) ]

    logging-Maintains :
        {A : Type 0} {Q : A → Type 0} (img : Option Image) (m : M (World H) A)
        → Maintains I Q m
        → Maintains I Q (logging C initiated K U img m)
    logging-Maintains {Q = Q} img m a =
        settled-Maintains I Q (relog img) a (λ x q. pure-Maintains I x q) (λ e. fail-Maintains I _)

    mount_key-Maintains :
        (target key : Text) → Maintains I Whatever (mount_key C initiated K U target key)
    unfolding mount_key
    mount_key-Maintains target key = record {
      run = λ w i.
          by_if {A = Result Text × World H} (λ x. I x.1 × IfOk Whatever x.0) (key == [])
            (S.unique_part w i, tt) (i, tt);
    }

    abbrev there : Result (Option Text) → M (World H) (Option Text)
    there r = elim r [ ok l ↦ pure l | err e ↦ if is_already_exists e then pure none else fail e ]

    mount_lease-Maintains : (key : Text) → Maintains I Whatever (mount_lease C initiated K U key)
    unfolding mount_lease
    mount_lease-Maintains key =
        settled-Maintains I Whatever there
          (with_lease-Maintains H Names Refs I S initiated (some key) _)
          (λ l _. pure-Maintains I l tt)
          (λ e.
            if-Maintains I (is_already_exists e) (pure-Maintains I none tt) (fail-Maintains I e))

    mount_parent-Maintains :
        (now : ℤ) (img : Option Image) → Maintains I Whatever (mount_parent C initiated K U now img)
    unfolding mount_parent
    mount_parent-Maintains now none = pure-Maintains I _ tt
    mount_parent-Maintains now (some img) =
        bind-Maintains I Whatever (S.root_fs img) (λ ids _. pure-Maintains I _ tt)

    abbrev mounts_of : Text → Result C.Mounts → M (World H) C.Mounts
    mounts_of key r = elim r [
      | ok mounts ↦ pure mounts
      | err e ↦ if is_already_exists e then C.snapshot_mounts key else fail e
    ]

    mount_snapshot-Maintains :
        (readonly : Bool) (key parent : Text) (opts : List C.SnapshotOpt)
        → Maintains I Whatever (mount_snapshot C initiated K U readonly key parent opts)
    unfolding mount_snapshot
    mount_snapshot-Maintains readonly key parent opts =
        settled-Maintains I Whatever (mounts_of key)
          (if-Maintains I readonly (S.snapshot_view key parent opts)
            (S.snapshot_prepare key parent opts))
          (λ m _. pure-Maintains I m tt)
          (λ e. if-Maintains I (is_already_exists e) (S.snapshot_mounts key) (fail-Maintains I e))

    abbrev unmade : Text → Result (Unit {0}) → M (World H) (Unit {0})
    unmade key r = elim r [ ok _ ↦ pure tt | err e ↦ do attempt (C.snapshot_remove key); fail e ]

    mount_target-Maintains :
        (m : C.Mounts) (target key : Text)
        → Maintains I Whatever (mount_target C initiated K U m target key)
    unfolding mount_target
    mount_target-Maintains m target key =
        settled-Maintains I Whatever (unmade key) (S.mount_all m target)
          (λ _ _. pure-Maintains I tt tt)
          (λ e.
            then-Maintains I
              (tried-Maintains H Names Refs I S initiated (C.snapshot_remove key)
                (S.snapshot_remove key))
              (fail-Maintains I e))

    now-Maintains : Maintains I Whatever (λ w. let (t, w') = K.now w in (ok t, w'))
    now-Maintains = record { run = λ w i. (S.now w i, tt) }

    mount_leased-Maintains :
        (img : Option Image) (target key : Text) (readonly : Bool) (m : MountOpts C)
        → Maintains I Whatever (mount_leased C initiated K U img target key readonly m)
    unfolding mount_leased
    mount_leased-Maintains img target key readonly m =
        then-Maintains I
          (if-Maintains I m.unpack
            (logging-Maintains img _ (unpack-Maintains H Names Refs I S img m.a_opts))
            (pure-Maintains I tt tt))
          (bind-Maintains I Whatever now-Maintains (λ now _.
            bind-Maintains I Whatever (logging-Maintains img _ (mount_parent-Maintains now img))
              (λ p _.
                bind-Maintains I Whatever
                  (logging-Maintains img _ (
                    mount_snapshot-Maintains readonly key p.0
                      (m.s_opts ++ (C.with_labels p.1 ∷ []))))
                  (λ mounts _.
                    logging-Maintains img _ (mount_target-Maintains mounts target key)))))

    end_mount-Maintains :
        (l : Option Text) (key : Text) (r : Result (Unit {0}))
        → Maintains I Whatever (end_mount C initiated K U l key r)
    unfolding end_mount
    end_mount-Maintains l key (ok _) = pure-Maintains I key tt
    end_mount-Maintains l key (err e) = if-Maintains I (is_panic e) (fail-Maintains I e) (
        then-Maintains I
          (tried-Maintains H Names Refs I S initiated (end_lease C initiated l)
            (end_lease-Maintains H Names Refs I S initiated l))
          (fail-Maintains I e))

    pub mount-Maintains :
        (img : Option Image) (target key : Text) (readonly : Bool) (opts : List (MountOpt C))
        → Maintains I Whatever (mount C initiated K U img target key readonly opts)
    unfolding mount
    mount-Maintains img target key readonly opts = checked-Maintains H Names Refs I S initiated (
        bind-Maintains I Whatever (lift-Maintains I (apply_options opts _) (any_ok _)) (λ m _.
          bind-Maintains I Whatever (mount_key-Maintains target key) (λ key' _.
            bind-Maintains I Whatever (mount_lease-Maintains key') (λ l _.
              bind-Maintains I (IfOk Whatever)
                (attempt-Maintains I (mount_leased-Maintains img target key' readonly m))
                (λ r _. end_mount-Maintains l key' r)))))
