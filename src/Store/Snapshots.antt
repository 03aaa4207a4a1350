-- ===== src/Store/Snapshots.antt =====
-- pkg/ocistore/ociStore.go and snapshots.go: leases, and the operations on snapshots.
pub mod Depth
pub mod Founded
pub mod Labelling
use mysnapshotter.Prelude.{
  ℕ, zero, suc, Bool, Option, none, some, List, [], ◌∷◌, if◌then◌else◌, Text, ◌==◌, Error, message,
  wrap, external, is_not_found, is_failed_precondition, Result, ok, err,
}
use mysnapshotter.Extractor.System.{M, pure, fail, ◌>>=◌, ◌>>◌, lift, attempt}
use mysnapshotter.Store.Containerd.{Labels, Info, Containerd}

-- `errors.New(missInitErrMsg)`.
abbrev pub not_initiated : Error
not_initiated = message "uninitiated containerdstore instance"

-- `delete(m, k)`.
unfoldable pub delete_label : Labels → Text → Labels
delete_label [] k = []
delete_label ((j, v) ∷ m) k = let rest = delete_label m k in if j == k then rest else (j, v) ∷ rest

unfoldable pub delete_labels : Labels → List Text → Labels
unfolding delete_label
delete_labels m [] = m
delete_labels m (k ∷ ks) = delete_labels (delete_label m k) ks

-- `m[k] = v`, and `maps.Copy`.
unfoldable pub set_label : Labels → Text → Text → Labels
unfolding delete_label
set_label m k v = (k, v) ∷ delete_label m k

unfoldable pub copy_labels : Labels → Labels → Labels
unfolding set_label
copy_labels dst [] = dst
copy_labels dst ((k, v) ∷ src) = copy_labels (set_label dst k v) src

abbrev pub label_of : Text → Labels → Option Text
label_of k [] = none
label_of k ((j, v) ∷ m) = if j == k then some v else label_of k m

module _ (C : Containerd) (initiated : Bool) where
  open C use {World}

  abbrev pub checked : {A : Type 0} → M World A → M World A
  checked m = if initiated then m else fail not_initiated

  -- `WithLease`: the name of the new lease, if the context has none yet.
  unfoldable pub with_lease : Option Text → Labels → M World (Option Text)
  with_lease id labels =
      if C.leased_context then pure none else (do l ← C.lease_create id labels; pure (some l))

  -- The function that `WithLease` gives to end the lease.
  unfoldable pub end_lease : Option Text → M World (Unit {0})
  end_lease none = pure tt
  end_lease (some l) = C.lease_delete l

  -- An operation under a lease of its own; an error of ending it is only logged.
  unfoldable pub leased : {A : Type 0} → M World A → M World A
  unfolding with_lease end_lease
  leased body = checked (do l ← with_lease none []; r ← attempt body; attempt (end_lease l); lift r)

  -- `ListSnapshots`: a missing store is an empty list.
  unfoldable pub list_snapshots : M World (List Info)
  unfolding leased
  list_snapshots = leased (do
    r ← attempt C.snapshot_walk
    (elim r [ ok infos ↦ pure infos | err e ↦ if is_not_found e then pure [] else fail e ]))

  -- `GetSnapshot`.
  unfoldable pub get_snapshot : Text → M World Info
  unfolding leased
  get_snapshot key = leased (C.snapshot_stat key)

  -- `UpdateSnapshot`.
  unfoldable pub update_snapshot : Info → List Text → M World Info
  unfolding leased
  update_snapshot info fields = leased (C.snapshot_update info fields)

  -- `LabelSnapshot` with `labelSnapshot`.
  unfoldable pub label_snapshot : Text → Labels → M World (Unit {0})
  unfolding leased copy_labels
  label_snapshot name labels = leased (do
    info ← C.snapshot_stat name
    C.snapshot_update (record info { labels = copy_labels info.labels labels }) []
    pure tt)

  -- `RemoveSnapshotLabels` with `removeSnapshotLabels`.
  unfoldable pub remove_snapshot_labels : Text → List Text → M World (Unit {0})
  unfolding leased delete_labels
  remove_snapshot_labels name keys = leased (do
    info ← C.snapshot_stat name
    C.snapshot_update (record info { labels = delete_labels info.labels keys }) []
    pure tt)

  -- How many snapshots may still be removed after one: none is without a bound, a negative depth.
  abbrev pub deeper : Option ℕ → Option (Option ℕ)
  deeper none = some none
  deeper (some zero) = none
  deeper (some (suc n)) = some (some n)

  -- What follows the removal of a snapshot: its parent's turn, if there is one and the depth allows.
  abbrev pub after_parent :
      (Text → Option ℕ → M World (Unit {0})) → Text → Option (Option ℕ) → M World (Unit {0})
  after_parent go parent d = elim d [
    | none ↦ pure tt
    | some depth' ↦ if parent == [] then pure tt else go parent depth'
  ]

  -- The removal of a snapshot that has children ends the walk.
  abbrev pub after_remove : M World (Unit {0}) → Result (Unit {0}) → M World (Unit {0})
  after_remove next removed = elim removed [
    | err e ↦ if is_failed_precondition e then pure tt else fail (wrap "error removing snapshot" e)
    | ok _ ↦ next
  ]

  -- And so does a missing snapshot.
  abbrev pub after_stat :
      (Text → Option ℕ → M World (Unit {0})) → Text → Option ℕ → Result Info → M World (Unit {0})
  after_stat go key depth found = elim found [
    | err e ↦ if is_not_found e then pure tt else fail e
    | ok info ↦ do
      removed ← attempt (C.snapshot_remove key)
      after_remove (after_parent go info.parent (deeper depth)) removed
  ]

  -- One round of `removeSnapshotsChain`, before what `go` does with the parent.
  unfoldable pub chain_round :
      (Text → Option ℕ → M World (Unit {0})) → Text → Option ℕ → M World (Unit {0})
  chain_round go key depth = do found ← attempt (C.snapshot_stat key); after_stat go key depth found

  -- `removeSnapshotsChain`, with the number of rounds that are left.
  unfoldable pub remove_snapshots_chain : ℕ → Text → Option ℕ → M World (Unit {0})
  unfolding chain_round
  remove_snapshots_chain zero key depth = fail (external "no rounds left")
  remove_snapshots_chain (suc rounds) key depth =
      chain_round (λ parent depth'. remove_snapshots_chain rounds parent depth') key depth
