-- ===== src/Tests/Database.antt =====
-- The file database on a store in memory: two roots that share a file.
use mysnapshotter.Prelude.{
  ◌≡◌, refl, true, false, ◌&&◌, ◌||◌, not, List, [], ◌∷◌, arith, Text, codes, text_dec, Result, ok,
  err,
}
use mysnapshotter.Paths.{join}
use mysnapshotter.FileDb.Buckets.{Bolt, roots, lookup}
use mysnapshotter.FileDb.Memory.{memory, memory-IsLawful, BucketMap, no_buckets}
use mysnapshotter.FileDb.{
  Entry, update, record_all, remove_root, record_all_tx, remove_root_tx, paths_for_checksum,
  root_exists,
}
use mysnapshotter.FileDb.Keys.{contains}
use mysnapshotter.FileDb.Record.{records}
use mysnapshotter.FileDb.RecordAll.{last_digest, record_all_tx-paths, record_all_tx-index}
use mysnapshotter.FileDb.RemoveRoot.{indexes, remove_root_tx-paths}
use mysnapshotter.FileDb.Orphans.{NoOrphan, remove_root_tx-NoOrphan}
use mysnapshotter.FileDb.RoundTrip.{OneDigest, remove_root_tx-record_all_tx}
use mysnapshotter.FileDb.Coherent.{
  IsCoherent, recorded, removed, Later, here, next, Later-IsCoherent, empty-IsCoherent,
}

program : Unit {0}
unfolding record_all_tx remove_root_tx paths_for_checksum root_exists join text_dec
program = tt

abbrev entry : Text → Text → Entry
entry d rp = record { digest = d; rel_paths = rp ∷ [] }

abbrev root_a : Text
root_a = codes "/a"

abbrev root_b : Text
root_b = codes "/b"

abbrev taken : Result BucketMap → BucketMap
taken (ok x) = x
taken (err _) = no_buckets

-- "/a" holds one file with the digest "s1".
abbrev first : BucketMap
unfolding program
first = taken (record_all_tx memory root_a (entry (codes "s1") (codes "x") ∷ []) no_buckets)

abbrev more : List Entry
more = entry (codes "s1") (codes "y") ∷ entry (codes "s2") (codes "z") ∷ []

abbrev second : BucketMap
unfolding program
second = taken (record_all_tx memory root_b more first)

abbrev third : BucketMap
unfolding program
third = taken (remove_root_tx memory root_b second)

recorded_more : record_all_tx memory root_b more first ≡ ok second
unfolding program
recorded_more = refl

removed_b : remove_root_tx memory root_b second ≡ ok third
unfolding program
removed_b = refl

listed : paths_for_checksum memory second (codes "s1") ≡ codes "/b/y" ∷ codes "/a/x" ∷ []
unfolding program
listed = refl

untracked : root_exists memory first root_b ≡ false
unfolding program
untracked = refl

record_all_tx-paths_example :
    contains (codes "/b/y") (paths_for_checksum memory second (codes "s1")) ≡ (
      records root_b (codes "s1") (codes "/b/y") more
      || contains (codes "/b/y") (paths_for_checksum memory first (codes "s1")))
record_all_tx-paths_example =
    record_all_tx-paths memory memory-IsLawful root_b first more (codes "s1") (codes "/b/y")
      recorded_more

record_all_tx-index_example :
    lookup (codes "z") (Bolt.entries memory second roots root_b)
    ≡ last_digest (codes "z") more (lookup (codes "z") (Bolt.entries memory first roots root_b))
record_all_tx-index_example =
    record_all_tx-index memory memory-IsLawful root_b first more (codes "z") recorded_more

remove_root_tx-paths_example :
    contains (codes "/a/x") (paths_for_checksum memory third (codes "s1")) ≡ (
      not (indexes root_b (codes "s1") (codes "/a/x") (Bolt.entries memory second roots root_b))
      && contains (codes "/a/x") (paths_for_checksum memory second (codes "s1")))
remove_root_tx-paths_example =
    remove_root_tx-paths memory memory-IsLawful root_b second (codes "s1") (codes "/a/x") removed_b

abbrev after_first : BucketMap
unfolding program
after_first = taken (remove_root_tx memory root_a first)

removed_first : remove_root_tx memory root_a first ≡ ok after_first
unfolding program
removed_first = refl

first-NoOrphan : NoOrphan memory first
unfolding program
first-NoOrphan d h = (codes "/a/x", ground arith)

remove_root_tx-NoOrphan_example : NoOrphan memory after_first
remove_root_tx-NoOrphan_example =
    remove_root_tx-NoOrphan memory memory-IsLawful root_a first removed_first first-NoOrphan

abbrev only : List Entry
only = entry (codes "s1") (codes "y") ∷ []

abbrev with_only : BucketMap
unfolding program
with_only = taken (record_all_tx memory root_b only first)

abbrev without : BucketMap
unfolding program
without = taken (remove_root_tx memory root_b with_only)

recorded_only : record_all_tx memory root_b only first ≡ ok with_only
unfolding program
recorded_only = refl

removed_only : remove_root_tx memory root_b with_only ≡ ok without
unfolding program
removed_only = refl

only-OneDigest : OneDigest only
only-OneDigest d d' rp h h' = ground arith

only_fresh :
    (d p : Text)
    → records root_b d p only ≡ true
    → contains p (paths_for_checksum memory first d) ≡ false
unfolding program
only_fresh d p h = ground arith

remove_root_tx-record_all_tx_example :
    contains (codes "/a/x") (paths_for_checksum memory without (codes "s1"))
    ≡ contains (codes "/a/x") (paths_for_checksum memory first (codes "s1"))
remove_root_tx-record_all_tx_example =
    remove_root_tx-record_all_tx memory memory-IsLawful root_b first only untracked only-OneDigest
      only_fresh recorded_only removed_only (codes "s1") (codes "/a/x")

abbrev one_entry : List Entry
one_entry = entry (codes "s1") (codes "x") ∷ []

abbrev one_root : BucketMap
one_root = (record_all memory root_a one_entry no_buckets).0

abbrev two_roots : BucketMap
two_roots = (record_all memory root_b only one_root).0

one_entry-OneDigest : OneDigest one_entry
one_entry-OneDigest d d' rp h h' = ground arith

calls : Later memory no_buckets (remove_root memory root_a two_roots).0
unfolding program record_all update
calls =
    next
      (next
        (next here (
          recorded no_buckets root_a one_entry (λ d rp h. refl) one_entry-OneDigest
            (λ d p h. refl)))
        (recorded one_root root_b only (λ d rp h. refl) only-OneDigest only_fresh))
      (removed two_roots root_a)

Later-IsCoherent_example : IsCoherent memory (remove_root memory root_a two_roots).0
Later-IsCoherent_example =
    Later-IsCoherent memory memory-IsLawful calls
      (empty-IsCoherent memory memory-IsLawful no_buckets (λ t b. refl))
