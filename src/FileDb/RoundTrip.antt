-- ===== src/FileDb/RoundTrip.antt =====
-- `RecordAll` then `RemoveRoot`: the round trip of a root that was not tracked before.
use mysnapshotter.Prelude.{
  ◌≡◌, refl, sym, ap, ◌∙◌, ◌⊎◌, inl, inr, Bool, true, false, ◌&&◌, not, Option, none, some, List,
  [], ◌∷◌, arith, if◌then◌else◌, Bool-cases, Any, any, is_some, Text, ◌==◌, ok,
}
use mysnapshotter.Paths.{join}
use mysnapshotter.FileDb.Buckets.{roots, Pairs, lookup, Bolt, IsLawful}
use mysnapshotter.FileDb.{Entry, record_all_tx, remove_root_tx, paths_for_checksum, root_exists}
use mysnapshotter.FileDb.Keys.{contains, Any-of_lookup}
use mysnapshotter.FileDb.Record.{lists_path, records}
use mysnapshotter.FileDb.RecordAll.{last_digest, record_all_tx-paths, record_all_tx-index}
use mysnapshotter.FileDb.RemoveRoot.{indexes, remove_root_tx-paths}

-- An entry with the digest `d`, not empty, has the relative path `rp`, not empty.
abbrev pub tracks : Text → Text → List Entry → Bool
tracks d rp = any (λ e.
    not (e.digest == []) && (e.digest == d) && any (λ q. not (q == []) && (q == rp)) e.rel_paths)

-- No relative path stands under two digests.
abbrev pub OneDigest : List Entry → Type 0
OneDigest es = (d d' rp : Text) → tracks d rp es ≡ true → tracks d' rp es ≡ true → d ≡ d'

abbrev hit : Text → Entry → Bool
hit j e = not (e.digest == []) && any (λ q. not (q == []) && (q == j)) e.rel_paths

pub last_digest-some :
    (j : Text) (es : List Entry) (old : Option Text) (d : Text)
    → last_digest j es old ≡ some d
    → (tracks d j es ≡ true) ⊎ (old ≡ some d)
unfolding last_digest
last_digest-some j [] old d h = inr h
last_digest-some j (e ∷ es) old d h =
    ground (arith, last_digest-some j es (if hit j e then some e.digest else old) d h)

pub last_digest-keeps :
    (j : Text) (es : List Entry) (old : Option Text)
    → is_some old ≡ true
    → is_some (last_digest j es old) ≡ true
unfolding last_digest
last_digest-keeps j [] old h = h
last_digest-keeps j (e ∷ es) old h =
    last_digest-keeps j es (if hit j e then some e.digest else old) (ground arith)

pub last_digest-tracks :
    (j : Text) (es : List Entry) (old : Option Text) (d : Text)
    → tracks d j es ≡ true
    → is_some (last_digest j es old) ≡ true
unfolding last_digest
last_digest-tracks j [] old d h = cc
last_digest-tracks j (e ∷ es) old d h =
    let next = if hit j e then some e.digest else old in
    ground (arith, last_digest-tracks j es next d, last_digest-keeps j es next)

pub some_of_is_some : (o : Option Text) → is_some o ≡ true → (d : Text) × (o ≡ some d)
some_of_is_some none h = absurd (cc)
some_of_is_some (some d) h = (d, refl)

pub bool_eq : (a b : Bool) → (a ≡ true → b ≡ true) → (b ≡ true → a ≡ true) → a ≡ b
bool_eq true b f g = sym (f refl)
bool_eq false true f g = g refl
bool_eq false false f g = refl

module _ (root d p : Text) where
  pub indexes-Any :
      (m : Pairs)
      → indexes root d p m ≡ true
      → (rp : Text) × Any (λ e. e ≡ (rp, d)) m × (join root rp ≡ p)
  indexes-Any [] h = absurd (cc)
  indexes-Any ((rp, g) ∷ m) h = elim (Bool-cases ((g == d) && (join root rp == p))) [
    | inl t ↦ (rp, inl (ground arith), ground arith)
    | inr f ↦ let (rp', a, e) = indexes-Any m (ground arith) in (rp', inr a, e)
  ]

  pub indexes_of_Any :
      (m : Pairs) (rp : Text)
      → Any (λ e. e ≡ (rp, d)) m
      → join root rp ≡ p
      → indexes root d p m ≡ true
  indexes_of_Any [] rp h e = absurd h
  indexes_of_Any ((q, g) ∷ m) rp h e = ground (arith, indexes_of_Any m rp)

  lists_path_of_rel :
      (rp : Text) (rps : List Text)
      → any (λ q. not (q == []) && (q == rp)) rps ≡ true
      → join root rp ≡ p
      → lists_path root p rps ≡ true
  lists_path_of_rel rp [] h e = cc
  lists_path_of_rel rp (q ∷ rps) h e = ground (arith, lists_path_of_rel rp rps)

  rel_of_lists_path :
      (rps : List Text)
      → lists_path root p rps ≡ true
      → (rp : Text) × (any (λ q. not (q == []) && (q == rp)) rps ≡ true) × (join root rp ≡ p)
  rel_of_lists_path [] h = absurd (cc)
  rel_of_lists_path (q ∷ rps) h = elim (Bool-cases (not (q == []) && (join root q == p))) [
    | inl t ↦ (q, ground arith, ground arith)
    | inr f ↦ let (rp, a, e) = rel_of_lists_path rps (ground arith) in (rp, ground arith, e)
  ]

  pub records_of_tracks :
      (rp : Text) (es : List Entry)
      → tracks d rp es ≡ true
      → join root rp ≡ p
      → records root d p es ≡ true
  records_of_tracks rp [] h e = cc
  records_of_tracks rp (f ∷ es) h e =
      ground (arith, lists_path_of_rel rp f.rel_paths, records_of_tracks rp es)

  pub tracks_of_records :
      (es : List Entry)
      → records root d p es ≡ true
      → (rp : Text) × (tracks d rp es ≡ true) × (join root rp ≡ p)
  tracks_of_records [] h = absurd (cc)
  tracks_of_records (f ∷ es) h =
      elim (Bool-cases (not (f.digest == []) && (f.digest == d) && lists_path root p f.rel_paths)) [
        | inl t ↦
            let (rp, a, e) = rel_of_lists_path f.rel_paths (ground arith) in (rp, ground arith, e)
        | inr n ↦ let (rp, a, e) = tracks_of_records es (ground arith) in (rp, ground arith, e)
      ]

module _ (B : Bolt) (L : IsLawful B) (root : Text) where
  open B use {Tx, has, entries}

  index-last_digest :
      (x : Tx) (es : List Entry) {y : Tx} (rp : Text)
      → root_exists B x root ≡ false
      → record_all_tx B root es x ≡ ok y
      → lookup rp (entries y roots root) ≡ last_digest rp es none
  unfolding root_exists
  index-last_digest x es rp new h =
      record_all_tx-index B L root x es rp h
      ∙ ap (λ m. last_digest rp es (lookup rp m)) (L.entries_absent x roots root new)

  indexes-records :
      (x : Tx) (es : List Entry) {y : Tx} (d p : Text)
      → root_exists B x root ≡ false
      → OneDigest es
      → record_all_tx B root es x ≡ ok y
      → indexes root d p (entries y roots root) ≡ records root d p es
  indexes-records x es {y} d p new one h =
      bool_eq _ _
        (λ i.
          let (rp, a, e) = indexes-Any root d p (entries y roots root) i in
          let found = L.entries_once y roots root rp d a in
          records_of_tracks root d p rp es
            (ground (
              arith,
              last_digest-some rp es none d (sym (index-last_digest x es rp new h) ∙ found),
            ))
            e)
        (λ r.
          let (rp, t, e) = tracks_of_records root d p es r in
          let (d', l) =
            some_of_is_some (last_digest rp es none) (last_digest-tracks rp es none d t) in
          let same : d ≡ d' = one d d' rp t (ground (arith, last_digest-some rp es none d' l)) in
          indexes_of_Any root d p (entries y roots root) rp
            (Any-of_lookup rp d (entries y roots root)
              (index-last_digest x es rp new h ∙ rw same l))
            e)

  -- A root that was not tracked, recorded and then removed: every digest lists exactly the paths
  -- that it listed before, if no relative path stands under two digests and no recorded path was
  -- listed already for its digest.
  pub remove_root_tx-record_all_tx :
      (x : Tx) (es : List Entry) {y z : Tx}
      → root_exists B x root ≡ false
      → OneDigest es
      → ((d p : Text) → records root d p es ≡ true → contains p (paths_for_checksum B x d) ≡ false)
      → record_all_tx B root es x ≡ ok y
      → remove_root_tx B root y ≡ ok z
      → (d p : Text) → contains p (paths_for_checksum B z d) ≡ contains p (paths_for_checksum B x d)
  remove_root_tx-record_all_tx x es {y} {z} new one fresh h k d p = ground (
    arith,
    fresh d p,
    indexes-records x es d p new one h,
    record_all_tx-paths B L root x es d p h,
    remove_root_tx-paths B L root y d p k,
  )
