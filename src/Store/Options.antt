-- ===== src/Store/Options.antt =====
-- The options of pkg/ocistore: functions on a record, applied in order.
use mysnapshotter.Prelude.{List, [], ◌∷◌, ◌++◌, Result, ok, ◌>>=◌}
use mysnapshotter.Store.Containerd.{Containerd}

-- `for _, o := range opts { err := o(x); if err != nil { return err } }`.
unfoldable pub apply_options : {A : Type 0} → List (A → Result A) → A → Result A
apply_options [] x = ok x
apply_options (o ∷ os) x = do y ← o x; apply_options os y

-- `ApplyCommitOpts`.
pub record ApplyCommitOpts (C : Containerd) : Type 0 where
  pub s_opts : List C.SnapshotOpt
  pub a_opts : List C.ApplyOpt

abbrev pub no_apply_commit_opts : (C : Containerd) → ApplyCommitOpts C
no_apply_commit_opts C = record { s_opts = []; a_opts = [] }

-- `ApplyCommitOpt`.
abbrev pub ApplyCommitOpt : Containerd → Type 0
ApplyCommitOpt C = ApplyCommitOpts C → Result (ApplyCommitOpts C)

-- `WithSnapshotsOpts`.
abbrev pub with_snapshots_opts : (C : Containerd) → List C.SnapshotOpt → ApplyCommitOpt C
with_snapshots_opts C opts co = ok (record co { s_opts = co.s_opts ++ opts })

-- `WithApplyOpts`.
abbrev pub with_apply_opts : (C : Containerd) → List C.ApplyOpt → ApplyCommitOpt C
with_apply_opts C opts co = ok (record co { a_opts = co.a_opts ++ opts })
