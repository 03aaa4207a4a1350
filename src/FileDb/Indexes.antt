-- ===== src/FileDb/Indexes.antt =====
-- What `RecordAll` and `RemoveRoot` leave in the index of any root.
use mysnapshotter.Prelude.{
  ◌≡◌, refl, sym, ◌∙◌, inl, inr, true, false, ◌&&◌, ◌||◌, none, some, List, [], ◌∷◌, arith,
  if◌then◌else◌, Bool-cases, Text, ◌==◌, ==_iff, ==_refl, ok, context, >>=-eq-ok, context-eq-ok,
}
use mysnapshotter.Paths.{join}
use mysnapshotter.FileDb.Buckets.{checksums, roots, Pairs, lookup, Bolt, IsLawful}
use mysnapshotter.FileDb.{
  Entry, is_empty, record_entry, record_entries, record_all_tx, remove_path, remove_paths,
  remove_root_tx,
}
use mysnapshotter.FileDb.Keys.{Any-of_lookup}
use mysnapshotter.FileDb.Record.{records, record_entry-root_has, record_entry-root}
use mysnapshotter.FileDb.RecordAll.{last_digest, record_all_tx-index}
use mysnapshotter.FileDb.RemoveRoot.{indexes}
use mysnapshotter.FileDb.RoundTrip.{
  OneDigest, tracks, bool_eq, indexes-Any, indexes_of_Any, last_digest-some, last_digest-keeps,
  last_digest-tracks, some_of_is_some, records_of_tracks, tracks_of_records,
}

-- The root's index has no digest for any relative path of the entries.
abbrev pub IsUnindexed : (B : Bolt) → Text → Bolt.Tx B → List Entry → Type 0
IsUnindexed B root x es =
    (d rp : Text) → tracks d rp es ≡ true → lookup rp (Bolt.entries B x roots root) ≡ none

module _ (B : Bolt) (L : IsLawful B) where
  open B use {Tx, has, entries, create_bucket, delete, delete_bucket}

  indexes_by_lookup :
      (x y : Tx) (r d p : Text)
      → ((j : Text) → lookup j (entries y roots r) ≡ lookup j (entries x roots r))
      → indexes r d p (entries x roots r) ≡ true
      → indexes r d p (entries y roots r) ≡ true
  indexes_by_lookup x y r d p same i =
      let (rp, a, e) = indexes-Any r d p (entries x roots r) i in
      indexes_of_Any r d p (entries y roots r) rp
        (Any-of_lookup rp d (entries y roots r) (same rp ∙ L.entries_once x roots r rp d a)) e

  -- An index leads to the same paths if it has the same digests.
  pub indexes_same :
      (x y : Tx) (r d p : Text)
      → ((j : Text) → lookup j (entries y roots r) ≡ lookup j (entries x roots r))
      → indexes r d p (entries y roots r) ≡ indexes r d p (entries x roots r)
  indexes_same x y r d p same =
      bool_eq _ _ (indexes_by_lookup y x r d p (λ j. sym (same j)))
        (indexes_by_lookup x y r d p same)

  module _ (root : Text) where
    record_entries-other :
        (x : Tx) (es : List Entry) {y : Tx} (r j : Text)
        → (root == r) ≡ false
        → has x roots root ≡ true
        → record_entries B root x es ≡ ok y
        → lookup j (entries y roots r) ≡ lookup j (entries x roots r)
    unfolding record_entries
    record_entries-other x [] r j n hr h = ground arith
    record_entries-other x (e ∷ es) r j n hr h =
        let (z, hz, hy) = >>=-eq-ok (record_entry B root x e) _ h in
        let hr' = record_entry-root_has B L root x e root hz ∙ hr in
        ground
          (arith, record_entry-root B L root x e r j hr hz, record_entries-other z es r j n hr' hy)

    pub record_all_tx-other :
        (x : Tx) (es : List Entry) {y : Tx} (r j : Text)
        → (root == r) ≡ false
        → record_all_tx B root es x ≡ ok y
        → lookup j (entries y roots r) ≡ lookup j (entries x roots r)
    unfolding record_all_tx
    record_all_tx-other x es r j n h =
        let (z, hz, hy) =
          >>=-eq-ok (context "creating root bucket" (create_bucket x roots root)) _ h in
        let hz' = context-eq-ok _ (create_bucket x roots root) hz in
        record_entries-other z es r j n
          (L.has-create x roots root roots root hz' ∙ rw (==_refl root)) hy
        ∙ L.get-create x roots root roots r j hz'

    found_after :
        (x : Tx) (es : List Entry) {y : Tx} (d p : Text)
        → record_all_tx B root es x ≡ ok y
        → indexes root d p (entries y roots root) ≡ true
        → (records root d p es || indexes root d p (entries x roots root)) ≡ true
    found_after x es {y} d p h i =
        let (rp, a, e) = indexes-Any root d p (entries y roots root) i in
        let now =
          sym (record_all_tx-index B L root x es rp h) ∙ L.entries_once y roots root rp d a in
        elim (last_digest-some rp es (lookup rp (entries x roots root)) d now) [
          | inl t ↦ rw (records_of_tracks root d p rp es t e) refl
          | inr o ↦
              let before =
                indexes_of_Any root d p (entries x roots root) rp
                  (Any-of_lookup rp d (entries x roots root) o) e in
              ground arith
        ]

    index_leads :
        (x : Tx) (es : List Entry) {y : Tx} (rp d p : Text)
        → record_all_tx B root es x ≡ ok y
        → last_digest rp es (lookup rp (entries x roots root)) ≡ some d
        → join root rp ≡ p
        → indexes root d p (entries y roots root) ≡ true
    index_leads x es {y} rp d p h l e =
        indexes_of_Any root d p (entries y roots root) rp
          (Any-of_lookup rp d (entries y roots root) (record_all_tx-index B L root x es rp h ∙ l)) e

    recorded_leads :
        (x : Tx) (es : List Entry) {y : Tx} (d p : Text)
        → IsUnindexed B root x es
        → OneDigest es
        → record_all_tx B root es x ≡ ok y
        → records root d p es ≡ true
        → indexes root d p (entries y roots root) ≡ true
    recorded_leads x es d p new one h k =
        let (rp, t, e) = tracks_of_records root d p es k in
        let old = lookup rp (entries x roots root) in
        let (d', l) = some_of_is_some (last_digest rp es old) (last_digest-tracks rp es old d t) in
        let same : d ≡ d' = elim (last_digest-some rp es old d' l) [
          | inl t' ↦ one d d' rp t t'
          | inr o ↦ let none_there = new d rp t in absurd (cc)
        ] in
        index_leads x es rp d p h (rw same l) e

    kept_leads :
        (x : Tx) (es : List Entry) {y : Tx} (d p : Text)
        → IsUnindexed B root x es
        → record_all_tx B root es x ≡ ok y
        → indexes root d p (entries x roots root) ≡ true
        → indexes root d p (entries y roots root) ≡ true
    kept_leads x es d p new h i =
        let (rp, a, e) = indexes-Any root d p (entries x roots root) i in
        let old = lookup rp (entries x roots root) in
        let was : old ≡ some d = L.entries_once x roots root rp d a in
        let (d', l) =
          some_of_is_some (last_digest rp es old) (last_digest-keeps rp es old (rw was)) in
        let same : d ≡ d' = elim (last_digest-some rp es old d' l) [
          | inl t' ↦ let none_there = new d' rp t' in absurd (cc)
          | inr o ↦ ground arith
        ] in
        index_leads x es rp d p h (rw same l) e

    -- The indexes after `RecordAll`, whose entries have relative paths that the root's index has not.
    pub record_all_tx-indexes :
        (x : Tx) (es : List Entry) {y : Tx} (r d p : Text)
        → IsUnindexed B root x es
        → OneDigest es
        → record_all_tx B root es x ≡ ok y
        → indexes r d p (entries y roots r)
          ≡ (((root == r) && records root d p es) || indexes r d p (entries x roots r))
    record_all_tx-indexes x es {y} r d p new one h = elim (Bool-cases (root == r)) [
      | inl s ↦ rw s (
          rw (← (==_iff root r).0 s) (
            bool_eq _ _ (found_after x es d p h)
              (λ k. ground (arith, recorded_leads x es d p new one h, kept_leads x es d p new h))))
      | inr n ↦ rw n (indexes_same x y r d p (λ j. record_all_tx-other x es r j n h))
    ]

    remove_path-index :
        (x : Tx) (rp g : Text) {y : Tx} (r j : Text)
        → remove_path B root x (rp, g) ≡ ok y
        → lookup j (entries y roots r) ≡ lookup j (entries x roots r)
    unfolding remove_path
    remove_path-index x rp g {y} r j h = elim (Bool-cases (has x checksums g)) [
      | inr e ↦ ground arith
      | inl e ↦
          let (z, hz, hy) = >>=-eq-ok (delete x checksums g (join root rp)) _ (rw e at h) in
          let same = L.get-delete x checksums g (join root rp) roots r j hz in
          elim (Bool-cases (is_empty (entries z checksums g))) [
            | inr e' ↦ ground arith
            | inl e' ↦ ground (arith, L.get-delete_bucket z checksums g roots r j (rw e' at hy))
          ]
    ]

    remove_paths-index :
        (x : Tx) (es : Pairs) {y : Tx} (r j : Text)
        → remove_paths B root x es ≡ ok y
        → lookup j (entries y roots r) ≡ lookup j (entries x roots r)
    unfolding remove_paths
    remove_paths-index x [] r j h = ground arith
    remove_paths-index x ((rp, g) ∷ es) r j h =
        let (z, hz, hy) = >>=-eq-ok (remove_path B root x (rp, g)) _ h in
        remove_paths-index z es r j hy ∙ remove_path-index x rp g r j hz

    remove_root_tx-index :
        (x : Tx) {y : Tx} (r j : Text)
        → remove_root_tx B root x ≡ ok y
        → lookup j (entries y roots r) ≡ (if root == r then none else lookup j (entries x roots r))
    unfolding remove_root_tx
    remove_root_tx-index x {y} r j h = elim (Bool-cases (has x roots root)) [
      | inr e ↦ ground (arith, ==_iff root r, L.entries_absent x roots root e)
      | inl e ↦
          let (z, hz, hy) =
            >>=-eq-ok (remove_paths B root x (entries x roots root)) _ (rw e at h) in
          ground (
            arith,
            remove_paths-index x (entries x roots root) r j hz,
            L.get-delete_bucket z roots root roots r j hy,
          )
    ]

    -- The indexes after `RemoveRoot`.
    pub remove_root_tx-indexes :
        (x : Tx) {y : Tx} (r d p : Text)
        → remove_root_tx B root x ≡ ok y
        → indexes r d p (entries y roots r)
          ≡ (if root == r then false else indexes r d p (entries x roots r))
    remove_root_tx-indexes x {y} r d p h = elim (Bool-cases (root == r)) [
      | inl s ↦ rw s (
          bool_eq _ _
            (λ i.
              let (rp, a, e) = indexes-Any r d p (entries y roots r) i in
              let none_at = remove_root_tx-index x r rp h in
              ground (arith, L.entries_once y roots r rp d a))
            (λ i. absurd (cc)))
      | inr n ↦ rw n (indexes_same x y r d p (λ j. remove_root_tx-index x r j h ∙ rw n))
    ]
