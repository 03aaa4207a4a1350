-- ===== src/FileDb/RecordAll.antt =====
-- What `RecordAll` leaves in the database, for all entries of a layer.
use mysnapshotter.Prelude.{
  ◌≡◌, refl, ap, ◌∙◌, true, ◌&&◌, ◌||◌, not, Option, some, List, [], ◌∷◌, arith, if◌then◌else◌, any,
  Text, ◌==◌, ==_refl, ok, context, >>=-eq-ok, context-eq-ok,
}
use mysnapshotter.FileDb.Buckets.{checksums, roots, lookup, Bolt, IsLawful}
use mysnapshotter.FileDb.{
  Entry, record_entry, record_entries, record_all_tx, paths_for_checksum, root_exists,
}
use mysnapshotter.FileDb.Keys.{contains, has_key, contains-paths_for_checksum}
use mysnapshotter.FileDb.Record.{
  records, record_entry-root_has, record_entry-key, record_entry-root,
}

-- The digest under which the root's bucket has `j` after the entries, from the one it had: that of
-- the last entry that lists `j`.
unfoldable pub last_digest : Text → List Entry → Option Text → Option Text
last_digest j [] old = old
last_digest j (e ∷ es) old = last_digest j es (
    if not (e.digest == []) && any (λ rp. not (rp == []) && (rp == j)) e.rel_paths
    then some e.digest
    else old)

module _ (B : Bolt) (L : IsLawful B) (root : Text) where
  open B use {Tx, has, entries, create_bucket}

  record_entries-root_has :
      (x : Tx) (es : List Entry) {y : Tx} (r : Text)
      → record_entries B root x es ≡ ok y
      → has y roots r ≡ has x roots r
  unfolding record_entries
  record_entries-root_has x [] r h = ground arith
  record_entries-root_has x (e ∷ es) r h =
      let (z, hz, hy) = >>=-eq-ok (record_entry B root x e) _ h in
      record_entries-root_has z es r hy ∙ record_entry-root_has B L root x e r hz

  record_entries-key :
      (x : Tx) (es : List Entry) {y : Tx} (d p : Text)
      → has x roots root ≡ true
      → record_entries B root x es ≡ ok y
      → has_key B y checksums d p ≡ (records root d p es || has_key B x checksums d p)
  unfolding record_entries
  record_entries-key x [] d p hr h = ground arith
  record_entries-key x (e ∷ es) d p hr h =
      let (z, hz, hy) = >>=-eq-ok (record_entry B root x e) _ h in
      let hr' = record_entry-root_has B L root x e root hz ∙ hr in
      ground (arith, record_entry-key B L root x e d p hr hz, record_entries-key z es d p hr' hy)

  record_entries-root :
      (x : Tx) (es : List Entry) {y : Tx} (j : Text)
      → has x roots root ≡ true
      → record_entries B root x es ≡ ok y
      → lookup j (entries y roots root) ≡ last_digest j es (lookup j (entries x roots root))
  unfolding record_entries last_digest
  record_entries-root x [] j hr h = ground arith
  record_entries-root x (e ∷ es) j hr h =
      let (z, hz, hy) = >>=-eq-ok (record_entry B root x e) _ h in
      let hr' = record_entry-root_has B L root x e root hz ∙ hr in
      record_entries-root z es j hr' hy
      ∙ ap (last_digest j es) (rw (record_entry-root B L root x e root j hr hz, ==_refl) refl)

  -- If `RecordAll` returns no error, a path is listed for a digest afterwards exactly if it was
  -- before, or an entry with that digest, not empty, has a relative path, not empty, that joined to
  -- the root gives it.
  pub record_all_tx-paths :
      (x : Tx) (es : List Entry) {y : Tx} (d p : Text)
      → record_all_tx B root es x ≡ ok y
      → contains p (paths_for_checksum B y d)
        ≡ (records root d p es || contains p (paths_for_checksum B x d))
  unfolding record_all_tx
  record_all_tx-paths x es {y} d p h =
      let (z, hz, hy) =
        >>=-eq-ok (context "creating root bucket" (create_bucket x roots root)) _ h in
      let hz' = context-eq-ok _ (create_bucket x roots root) hz in
      ground (
        arith,
        ==_refl root,
        contains-paths_for_checksum B L x d p,
        contains-paths_for_checksum B L y d p,
        L.has-create x roots root roots root hz',
        L.get-create x roots root checksums d p hz',
        record_entries-key z es d p _ hy,
      )

  -- If `RecordAll` returns no error, the given root is tracked, and every other one exactly if it
  -- was.
  pub record_all_tx-roots :
      (x : Tx) (es : List Entry) {y : Tx} (r : Text)
      → record_all_tx B root es x ≡ ok y
      → root_exists B y r ≡ ((root == r) || root_exists B x r)
  unfolding record_all_tx root_exists
  record_all_tx-roots x es r h =
      let (z, hz, hy) =
        >>=-eq-ok (context "creating root bucket" (create_bucket x roots root)) _ h in
      let hz' = context-eq-ok _ (create_bucket x roots root) hz in
      ground (arith, L.has-create x roots root roots r hz', record_entries-root_has z es r hy)

  -- If `RecordAll` returns no error, the root's index has for each relative path the digest of the
  -- last entry that lists it, and what it had before where none does.
  pub record_all_tx-index :
      (x : Tx) (es : List Entry) {y : Tx} (j : Text)
      → record_all_tx B root es x ≡ ok y
      → lookup j (entries y roots root) ≡ last_digest j es (lookup j (entries x roots root))
  unfolding record_all_tx
  record_all_tx-index x es j h =
      let (z, hz, hy) =
        >>=-eq-ok (context "creating root bucket" (create_bucket x roots root)) _ h in
      let hz' = context-eq-ok _ (create_bucket x roots root) hz in
      record_entries-root z es j (L.has-create x roots root roots root hz' ∙ rw (==_refl root)) hy
      ∙ ap (last_digest j es) (L.get-create x roots root roots root j hz')
