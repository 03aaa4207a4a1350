-- ===== src/Store/Snapshots/Founded.antt =====
-- `removeSnapshotsChain` without a bound on its depth.
use mysnapshotter.Prelude.{
  ℕ, zero, suc, ◌<◌, ◌≡◌, refl, inl, inr, Bool, Bool-cases, false, Option, none, some, [], arith,
  Text, ◌==◌, Result, ok, err,
}
use mysnapshotter.Extractor.System.{M}
use mysnapshotter.Store.Containerd.{Info, Containerd}
use mysnapshotter.Store.Snapshots.{
  after_parent, after_remove, after_stat, chain_round, deeper, remove_snapshots_chain,
}

-- A snapshot's parent is nearer to the end of the chain, at any time.
abbrev pub IsFounded : (C : Containerd) → (Text → ℕ) → Type 0
IsFounded C rank =
    (key : Text) (info : Info) (w : C.World)
    → (C.snapshot_stat key w).0 ≡ ok info
    → (info.parent == []) ≡ false
    → rank info.parent < rank key

module _ (C : Containerd) (initiated : Bool) where
  open C use {World}

  abbrev Walk : Type 0
  Walk = Text → Option ℕ → M World (Unit {0})

  after_parent-cong :
      (go go' : Walk) (parent : Text) (d : Option (Option ℕ)) (w : World)
      → ((parent == []) ≡ false → (d : Option ℕ) (w : World) → go parent d w ≡ go' parent d w)
      → after_parent C initiated go parent d w ≡ after_parent C initiated go' parent d w
  after_parent-cong go go' parent none w h = refl
  after_parent-cong go go' parent (some d) w h = elim (Bool-cases (parent == [])) [
    | inl y ↦ rw y refl
    | inr y ↦ rw y (h y d w)
  ]

  after_remove-cong :
      (go go' : Walk) (parent : Text) (d : Option (Option ℕ)) (r : Result (Unit {0})) (w : World)
      → ((parent == []) ≡ false → (d : Option ℕ) (w : World) → go parent d w ≡ go' parent d w)
      → after_remove C initiated (after_parent C initiated go parent d) r w
        ≡ after_remove C initiated (after_parent C initiated go' parent d) r w
  after_remove-cong go go' parent d (ok _) w h = after_parent-cong go go' parent d w h
  after_remove-cong go go' parent d (err e) w h = refl

  after_stat-cong :
      (go go' : Walk) (key : Text) (depth : Option ℕ) (r : Result Info) (w : World)
      → ((info : Info)
          → r ≡ ok info
          → (info.parent == []) ≡ false
          → (d : Option ℕ) (w : World) → go info.parent d w ≡ go' info.parent d w)
      → after_stat C initiated go key depth r w ≡ after_stat C initiated go' key depth r w
  after_stat-cong go go' key depth (err e) w h = refl
  after_stat-cong go go' key depth (ok info) w h =
      let x = C.snapshot_remove key w in
      after_remove-cong go go' info.parent (deeper C initiated depth) x.0 x.1 (h info refl)

  -- Where every parent is nearer to the end of its chain, any number of rounds above the distance of the
  -- snapshot gives the same result, whatever the depth: the walk ends.
  pub remove_snapshots_chain-ends :
      (rank : Text → ℕ)
      → IsFounded C rank
      → (rounds rounds' : ℕ) (key : Text) (depth : Option ℕ) (w : World) → rank key < rounds
      → rank key < rounds'
      → remove_snapshots_chain C initiated rounds key depth w
        ≡ remove_snapshots_chain C initiated rounds' key depth w
  unfolding remove_snapshots_chain chain_round
  remove_snapshots_chain-ends rank f zero rounds' key depth w a b = absurd (omega arith)
  remove_snapshots_chain-ends rank f (suc rounds) zero key depth w a b = absurd (omega arith)
  remove_snapshots_chain-ends rank f (suc rounds) (suc rounds') key depth w a b =
      let x = C.snapshot_stat key w in
      after_stat-cong (λ p d. remove_snapshots_chain C initiated rounds p d)
        (λ p d. remove_snapshots_chain C initiated rounds' p d) key depth x.0 x.1
        (λ info e y d w'.
          let nearer = f key info w e y in
          remove_snapshots_chain-ends rank f rounds rounds' info.parent d w' (omega (arith, nearer))
            (omega (arith, nearer)))
