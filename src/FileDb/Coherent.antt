-- ===== src/FileDb/Coherent.antt =====
-- The two parts of the database stay in step: the digests' buckets and the roots' indexes.
use mysnapshotter.Prelude.{
  ◌≡◌, Bool, true, false, inl, inr, List, arith, Bool-cases, Text, ==_iff, ==_refl, Option-cases,
  Result, ok, Result-cases,
}
use mysnapshotter.FileDb.Buckets.{Top, checksums, roots, Bolt, IsLawful}
use mysnapshotter.FileDb.{
  Entry, update, record_all_tx, record_all, remove_root_tx, remove_root, paths_for_checksum,
}
use mysnapshotter.FileDb.Keys.{contains, has_key_absent, contains-paths_for_checksum}
use mysnapshotter.FileDb.Record.{records}
use mysnapshotter.FileDb.RecordAll.{record_all_tx-paths}
use mysnapshotter.FileDb.RemoveRoot.{indexes, remove_root_tx-paths}
use mysnapshotter.FileDb.RoundTrip.{OneDigest}
use mysnapshotter.FileDb.Indexes.{IsUnindexed, record_all_tx-indexes, remove_root_tx-indexes}

module _ (B : Bolt) where
  open B use {Tx, has, entries, commit}

  abbrev pub is_listed : Tx → Text → Text → Bool
  is_listed x d p = contains p (paths_for_checksum B x d)

  abbrev pub leads_to : Tx → Text → Text → Text → Bool
  leads_to x r d p = indexes r d p (entries x roots r)

  -- A path is listed for a digest if the index of a root leads to it, of one root only, and not
  -- otherwise.
  pub record IsCoherent (x : Tx) : Type 0 where
    pub owned : (d p : Text) → is_listed x d p ≡ true → (r : Text) × (leads_to x r d p ≡ true)
    pub listed : (r d p : Text) → leads_to x r d p ≡ true → is_listed x d p ≡ true
    pub one_owner : (r r' d p : Text) → leads_to x r d p ≡ true → leads_to x r' d p ≡ true → r ≡ r'

  -- A call of `RecordAll` whose entries have no relative path that the root's index has already, none
  -- under two digests, and none whose path is listed already for its digest, or a call of
  -- `RemoveRoot`. Either may be rolled back.
  pub data Step : Tx → Tx → Type 0 where
    recorded :
        (x : Tx) (root : Text) (es : List Entry)
        → IsUnindexed B root x es
        → OneDigest es
        → ((d p : Text) → records root d p es ≡ true → is_listed x d p ≡ false)
        → Step x (record_all B root es x).0
    removed : (x : Tx) (root : Text) → Step x (remove_root B root x).0

  pub data Later (x : Tx) : Tx → Type 0 where
    here : Later x x
    next : {y z : Tx} → Later x y → Step y z → Later x z

  -- A transaction keeps what holds of its view if the function keeps it when it succeeds.
  pub update-kept :
      (P : Tx → Type 0) (x : Tx) (f : Tx → Result Tx)
      → P x
      → ((y : Tx) → f x ≡ ok y → P y)
      → P (update B f x).0
  unfolding update
  update-kept P x f p h = elim (Result-cases (f x)) [
    | inl (e, s) ↦ rw (update, s) p
    | inr (y, s) ↦ elim (Option-cases (commit y)) [
      | inl c ↦ rw (update, s, c) (h y s)
      | inr (e, c) ↦ rw (update, s, c) p
    ]
  ]

  module _ (L : IsLawful B) (root : Text) where
    record_all_tx-IsCoherent :
        (x : Tx) (es : List Entry) {y : Tx}
        → IsUnindexed B root x es
        → OneDigest es
        → ((d p : Text) → records root d p es ≡ true → is_listed x d p ≡ false)
        → record_all_tx B root es x ≡ ok y
        → IsCoherent x
        → IsCoherent y
    record_all_tx-IsCoherent x es {y} new one fresh h c =
        let lists = λ (d p : Text). record_all_tx-paths B L root x es d p h in
        let leads = λ (r d p : Text). record_all_tx-indexes B L root x es r d p new one h in
        record {
          owned = λ d p t. elim (Bool-cases (records root d p es)) [
            | inl k ↦ (root, ground (arith, leads root d p, ==_refl root))
            | inr k ↦
                let (r, i) = c.owned d p (ground (arith, lists d p)) in
                (r, ground (arith, leads r d p))
          ];
          listed = λ r d p t. ground (arith, lists d p, leads r d p, ==_iff root r, c.listed r d p);
          one_owner = λ r r' d p t t'. ground (
            arith,
            fresh d p,
            leads r d p,
            leads r' d p,
            ==_iff root r,
            ==_iff root r',
            c.listed r d p,
            c.listed r' d p,
            c.one_owner r r' d p,
          );
        }

    remove_root_tx-IsCoherent :
        (x : Tx) {y : Tx} → remove_root_tx B root x ≡ ok y → IsCoherent x → IsCoherent y
    remove_root_tx-IsCoherent x {y} h c =
        let lists = λ (d p : Text). remove_root_tx-paths B L root x d p h in
        let leads = λ (r d p : Text). remove_root_tx-indexes B L root x r d p h in
        record {
          owned = λ d p t.
              let (r, i) = c.owned d p (ground (arith, lists d p)) in
              (r, ground (arith, lists d p, leads r d p, ==_iff root r));
          listed = λ r d p t. ground (
            arith,
            lists d p,
            leads r d p,
            ==_iff root r,
            c.listed r d p,
            c.one_owner r root d p,
          );
          one_owner =
              λ r r' d p t t'. ground (arith, leads r d p, leads r' d p, c.one_owner r r' d p);
        }

  module _ (L : IsLawful B) where
    step-IsCoherent : {x y : Tx} → Step x y → IsCoherent x → IsCoherent y
    unfolding record_all remove_root
    step-IsCoherent (recorded x root es new one fresh) c =
        update-kept IsCoherent x (record_all_tx B root es) c
          (λ y h. record_all_tx-IsCoherent L root x es new one fresh h c)
    step-IsCoherent (removed x root) c =
        update-kept IsCoherent x (remove_root_tx B root) c
          (λ y h. remove_root_tx-IsCoherent L root x h c)

    -- Whatever calls of `RecordAll` and `RemoveRoot` are made one after the other, rolled back or not, if
    -- each `RecordAll` has entries with no relative path that the root's index has by then, none under
    -- two digests, and none whose path is listed by then for its digest: if the digests' buckets and the
    -- roots' indexes were in step they still are, so that a path is listed for a digest exactly if
    -- the index of a root leads to it, of one root only.
    pub Later-IsCoherent : {x y : Tx} → Later x y → IsCoherent x → IsCoherent y
    Later-IsCoherent here c = c
    Later-IsCoherent (next l s) c = step-IsCoherent s (Later-IsCoherent l c)

    -- A database with no roots and no digests is in step.
    pub empty-IsCoherent : (x : Tx) → ((t : Top) (b : Text) → has x t b ≡ false) → IsCoherent x
    empty-IsCoherent x none_has = record {
      owned = λ d p t. absurd (
          ground (
            arith,
            contains-paths_for_checksum B L x d p,
            has_key_absent B L x checksums d p (none_has checksums d),
          ));
      listed = λ r d p t. absurd (ground (arith, L.entries_absent x roots r (none_has roots r)));
      one_owner =
          λ r r' d p t t'. absurd (ground (arith, L.entries_absent x roots r (none_has roots r)));
    }
