-- ===== src/FileDb.antt =====
-- pkg/filedb/filedb.go: the extraction-tracking store, over the bolt interface. A read-write method
-- is a function on the view of its transaction, run by `update`.
pub mod Buckets
pub mod Memory
pub mod Keys
pub mod Record
pub mod RecordAll
pub mod RemoveRoot
pub mod Orphans
pub mod RoundTrip
pub mod Indexes
pub mod Coherent
pub mod Opening
use mysnapshotter.Prelude.{
  Text, ◌==◌, if◌then◌else◌, List, [], ◌∷◌, map, Bool, Option, none, some, Result, ok, err, Error,
  ◌>>=◌, context,
}
use mysnapshotter.Paths.{join}
use Buckets.{Bolt, Top, checksums, roots, Pairs}

-- `Entry`: its two methods.
pub record Entry : Type 0 where
  pub digest : Text
  pub rel_paths : List Text

-- The test after `Cursor().First()`: no key is left.
abbrev pub is_empty : Pairs → Bool
is_empty [] = Bool.true
is_empty (_ ∷ _) = Bool.false

module _ (B : Bolt) where
  open B use {Tx, has, entries, create_bucket, put, delete, delete_bucket, commit}

  -- `bolt.DB.Update`: what the function made is kept if it and the commit return no error, and
  -- rolled back otherwise.
  unfoldable pub update : (Tx → Result Tx) → Tx → Tx × Option Error
  update f x = elim (f x) [
    | err e ↦ (x, some e)
    | ok y ↦ elim (commit y) [ none ↦ (y, none) | some e ↦ (x, some e) ]
  ]

  -- One round of the loop over `e.RelPaths()`.
  unfoldable pub record_path : Text → Text → Tx → Text → Result Tx
  record_path root digest x rp =
      if rp == []
      then ok x
      else do y ← put x checksums digest (join root rp) []; put y roots root rp digest

  unfoldable pub record_paths : Text → Text → Tx → List Text → Result Tx
  unfolding record_path
  record_paths root digest x [] = ok x
  record_paths root digest x (rp ∷ rps) = do
    y ← record_path root digest x rp
    record_paths root digest y rps

  -- One round of the loop over the entries.
  unfoldable pub record_entry : Text → Tx → Entry → Result Tx
  unfolding record_paths
  record_entry root x e = if e.digest == [] then ok x else do
    y ← context "creating checksum bucket" (create_bucket x checksums e.digest)
    record_paths root e.digest y e.rel_paths

  unfoldable pub record_entries : Text → Tx → List Entry → Result Tx
  unfolding record_entry
  record_entries root x [] = ok x
  record_entries root x (e ∷ es) = do y ← record_entry root x e; record_entries root y es

  -- The function that `RecordAll` passes to `Update`.
  unfoldable pub record_all_tx : Text → List Entry → Tx → Result Tx
  unfolding record_entries
  record_all_tx root es x = do
    y ← context "creating root bucket" (create_bucket x roots root)
    record_entries root y es

  -- `RecordAll`.
  unfoldable pub record_all : Text → List Entry → Tx → Tx × Option Error
  unfolding update record_all_tx
  record_all root es = update (record_all_tx root es)

  -- `PathsForChecksum`: the keys of the digest's bucket, none if there is no bucket.
  unfoldable pub paths_for_checksum : Tx → Text → List Text
  paths_for_checksum x digest =
      if has x checksums digest then map (λ e. e.0) (entries x checksums digest) else []

  -- `RootExists`.
  unfoldable pub root_exists : Tx → Text → Bool
  root_exists x root = has x roots root

  -- One call of the function that `RemoveRoot` passes to `ForEach`.
  unfoldable pub remove_path : Text → Tx → Text × Text → Result Tx
  remove_path root x (rp, digest) =
      if has x checksums digest
      then (do
        y ← delete x checksums digest (join root rp)
        if is_empty (entries y checksums digest) then delete_bucket y checksums digest else ok y)
      else ok x

  unfoldable pub remove_paths : Text → Tx → Pairs → Result Tx
  unfolding remove_path
  remove_paths root x [] = ok x
  remove_paths root x (e ∷ es) = do y ← remove_path root x e; remove_paths root y es

  -- The function that `RemoveRoot` passes to `Update`.
  unfoldable pub remove_root_tx : Text → Tx → Result Tx
  unfolding remove_paths
  remove_root_tx root x =
      if has x roots root
      then (do y ← remove_paths root x (entries x roots root); delete_bucket y roots root)
      else ok x

  -- `RemoveRoot`.
  unfoldable pub remove_root : Text → Tx → Tx × Option Error
  unfolding update remove_root_tx
  remove_root root = update (remove_root_tx root)
