-- ===== src/FileDb/Opening.antt =====
-- `Open` and `Close` of pkg/filedb/filedb.go. `bolt.Open`, `bolt.DB.Close` and the creation of a top-level
-- bucket are parameters.
use mysnapshotter.Prelude.{ℕ, Text, Error, wrap, Option, none, some, Result, ok, err}
use mysnapshotter.Paths.{dir}
use mysnapshotter.Extractor.System.{Syscall, Os, M, pure, fail, ◌>>=◌, ◌>>◌, named, attempt, issue}
use mysnapshotter.FileDb.Buckets.{Bolt, Top, checksums, roots}
use mysnapshotter.FileDb.{update}

-- `bolt.Open` with a mode, the database file's `Close`, and `CreateBucketIfNotExists` of a transaction.
pub record BoltFile (B : Bolt) (World : Type 0) : Type 0 where
  pub open_bolt : Text → ℕ → World → Result (Bolt.Tx B) × World
  pub close_bolt : Bolt.Tx B → World → Result (Unit {0}) × World
  pub create_top : Bolt.Tx B → Top → Result (Bolt.Tx B)

module _ (O : Os) (B : Bolt) (F : BoltFile B O.World) where
  abbrev pub Db : Type 0
  Db = Bolt.Tx B

  -- The function that `Open` passes to `Update`.
  abbrev pub create_tops : Db → Result Db
  create_tops x = elim (F.create_top x checksums) [ ok y ↦ F.create_top y roots | err e ↦ err e ]

  -- The end of `Open`: a database that cannot be initialized is closed.
  abbrev pub initialized : Db × Option Error → M O.World Db
  initialized (x, none) = pure x
  initialized (x, some e) = do attempt (F.close_bolt x); fail (wrap "initializing filedb" e)

  -- `Open`.
  unfoldable pub open_db : Text → M O.World Db
  unfolding dir update
  open_db path = do
    named "creating the path for files database" (issue O (Syscall.mkdir_all (dir path) 493))
    x ← named "opening filedb" (F.open_bolt path 420)
    initialized (update B create_tops x)

  -- `Close`.
  abbrev pub close_db : Db → M O.World (Unit {0})
  close_db x = F.close_bolt x
