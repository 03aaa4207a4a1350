-- ===== src/Store/Snapshots/Depth.antt =====
-- `removeSnapshotsChain`: a bounded depth bounds the rounds.
use mysnapshotter.Prelude.{ℕ, zero, suc, ◌<◌, ◌≡◌, refl, ap, Bool, some, arith, Text, Result}
use mysnapshotter.Store.Containerd.{Containerd}
use mysnapshotter.Store.Snapshots.{chain_round, remove_snapshots_chain}

module _ (C : Containerd) (initiated : Bool) where
  -- With a depth of `n` more snapshots, any number of rounds above `n` gives the same result: the
  -- walk takes at most `n + 1`.
  pub remove_snapshots_chain-enough :
      (n rounds : ℕ) (key : Text)
      → n < rounds
      → remove_snapshots_chain C initiated rounds key (some n)
        ≡ remove_snapshots_chain C initiated (suc n) key (some n)
  unfolding remove_snapshots_chain
  remove_snapshots_chain-enough n zero key h = absurd (omega arith)
  remove_snapshots_chain-enough zero (suc rounds) key h = refl
  remove_snapshots_chain-enough (suc n) (suc rounds) key h =
      ap
        (λ (go : Text → C.World → Result (Unit {0}) × C.World).
          chain_round C initiated (λ parent depth. go parent) key (some (suc n)))
        (λ i parent. remove_snapshots_chain-enough n rounds parent (omega arith) i)
