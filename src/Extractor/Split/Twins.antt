-- ===== src/Extractor/Split/Twins.antt =====
-- `processTOC`: one file more, in each of its three cases.
use mysnapshotter.Prelude.{
  ℕ, ◌<◌, ◌≡◌, refl, sym, ap, ◌∙◌, ◌⊎◌, inl, inr, false, some, List, [], ◌∷◌, ◌++◌, arith,
  Bool-cases, length, get_elem?, length-append, Any-append_left, Any-append_right, Text, ◌==◌,
}
use mathlib.Core.Path.{subst}
use mysnapshotter.Chunked.Data.{FileMetadata}
use mysnapshotter.Extractor.Files.{TocFile}
use mysnapshotter.Extractor.Layer.{LayerCtx}
use mysnapshotter.Extractor.Split.Kept.{
  Has, Kept, get-append_left, get-append_length, add_duplicates-Kept, add_duplicates-length,
  add_duplicates-Has, append-Kept, last_or_before,
}
use mysnapshotter.Extractor.Split.{Split, add_duplicates, add_twin, start}

-- The contents of file `i` will be there: it is fetched, or copied from the disk, or copied from a
-- file that is fetched.
abbrev pub Supplied : Split → ℕ → Type 0
Supplied s i =
    Has i s.missing
    ⊎ (Has i s.cached
        ⊎ ((j : ℕ) × (f : TocFile) × Has j s.missing
            × (get_elem? s.files j ≡ some f)
            × Has i f.duplicates))

Supplied-mono :
    (s t : Split) (i : ℕ)
    → ((j : ℕ) → Has j s.missing → Has j t.missing)
    → ((j : ℕ) → Has j s.cached → Has j t.cached)
    → Kept s.files t.files
    → Supplied s i
    → Supplied t i
Supplied-mono s t i m c k (inl h) = inl (m i h)
Supplied-mono s t i m c k (inr (inl h)) = inr (inl (c i h))
Supplied-mono s t i m c k (inr (inr (j, f, h, e, a))) =
    let (g, hg, b) = k j f e in inr (inr (j, g, m j h, hg, b i a))

module _ (q : Text → List Text) where
  -- Every file made is supplied; and of a digest that the database does not have, the first file
  -- made is fetched.
  pub record IsSplit (s : Split) : Type 0 where
    pub supplied : (i : ℕ) → i < length s.files → Supplied s i
    pub first :
        (d : Text)
        → q d ≡ []
        → (s.digests d ≡ [])
          ⊎ ((j : ℕ) × (js : List ℕ) × (f : TocFile) × (s.digests d ≡ j ∷ js)
              × Has j s.missing
              × (get_elem? s.files j ≡ some f))

  pub start-IsSplit : (lc : LayerCtx) → IsSplit (start lc)
  start-IsSplit lc = record { supplied = λ i h. absurd (omega arith); first = λ d h. inl refl }

  -- The first file of another digest stays where it is.
  first-Kept :
      (s t : Split) (d : Text)
      → q d ≡ []
      → IsSplit s
      → t.digests d ≡ s.digests d
      → ((j : ℕ) → Has j s.missing → Has j t.missing)
      → Kept s.files t.files
      → (t.digests d ≡ [])
        ⊎ ((j : ℕ) × (js : List ℕ) × (f : TocFile) × (t.digests d ≡ j ∷ js)
            × Has j t.missing
            × (get_elem? t.files j ≡ some f))
  first-Kept s t d h v same m k = elim (v.first d h) [
    | inl z ↦ inl (same ∙ z)
    | inr (j, js, f, e, a, g) ↦ let (f', g', b) = k j f g in inr (j, js, f', same ∙ e, m j a, g')
  ]

  -- A cached file at the end, where no digest that is not on the disk gets a place.
  abbrev with_cached : Split → TocFile → (Text → List ℕ) → Split
  with_cached s file digests = record s {
    files = s.files ++ (file ∷ []);
    cached = s.cached ++ (length s.files ∷ []);
    digests = digests;
  }

  with_cached-IsSplit :
      (s : Split) (file : TocFile) (digests : Text → List ℕ)
      → ((d : Text) → q d ≡ [] → digests d ≡ s.digests d)
      → IsSplit s
      → IsSplit (with_cached s file digests)
  with_cached-IsSplit s file digests same v = record {
    supplied = λ i h.
        elim (last_or_before i (length s.files)
          (omega (arith, length-append s.files (file ∷ [])))) [
            | inl old ↦
                Supplied-mono s (with_cached s file digests) i (λ j a. a)
                  (λ j a. Any-append_left (λ k. k ≡ j) s.cached _ a) (append-Kept s.files _)
                  (v.supplied i old)
            | inr new ↦ inr (inl (Any-append_right (λ k. k ≡ i) s.cached _ (inl (sym new))))
          ];
    first = λ d h.
        first-Kept s (with_cached s file digests) d h v (same d h) (λ j a. a)
          (append-Kept s.files _);
  }

  other_digest :
      (s : Split) (entry : FileMetadata) (paths : List Text) (refs : List ℕ) (d : Text)
      → (entry.digest == d) ≡ false
      → (add_twin s entry paths refs).digests d ≡ s.digests d
  unfolding add_twin
  other_digest s entry paths refs d h = rw h refl

  missing_digest :
      (s : Split) (entry : FileMetadata) (p : Text) (ps : List Text) (refs : List ℕ)
      → q entry.digest ≡ p ∷ ps
      → (d : Text) → q d ≡ []
      → (add_twin s entry (p ∷ ps) refs).digests d ≡ s.digests d
  missing_digest s entry p ps refs e d h = elim (Bool-cases (entry.digest == d)) [
    | inl same ↦ absurd (ground arith)
    | inr other ↦ other_digest s entry (p ∷ ps) refs d other
  ]

  -- A file on the disk.
  pub add_cached-IsSplit :
      (s : Split) (entry : FileMetadata) (p : Text) (ps : List Text) (refs : List ℕ)
      → q entry.digest ≡ p ∷ ps
      → IsSplit s
      → IsSplit (add_twin s entry (p ∷ ps) refs)
  unfolding add_twin
  add_cached-IsSplit s entry p ps [] e v =
      with_cached-IsSplit s _ (add_twin s entry (p ∷ ps) []).digests
        (missing_digest s entry p ps [] e) v
  add_cached-IsSplit s entry p ps (j ∷ js) e v =
      with_cached-IsSplit s _ (add_twin s entry (p ∷ ps) (j ∷ js)).digests
        (missing_digest s entry p ps (j ∷ js) e) v

  -- The first file of a digest that is not on the disk.
  pub add_missing-IsSplit :
      (s : Split) (entry : FileMetadata) → IsSplit s → IsSplit (add_twin s entry [] [])
  unfolding add_twin
  add_missing-IsSplit s entry v = record {
    supplied = λ i h.
        elim (last_or_before i (length s.files) (omega (arith, length-append s.files (_ ∷ [])))) [
          | inl old ↦
              Supplied-mono s (add_twin s entry [] []) i
                (λ j a. Any-append_left (λ k. k ≡ j) s.missing _ a) (λ j a. a)
                (append-Kept s.files _) (v.supplied i old)
          | inr new ↦ inl (Any-append_right (λ k. k ≡ i) s.missing _ (inl (sym new)))
        ];
    first = λ d h. elim (Bool-cases (entry.digest == d)) [
      | inl same ↦ inr (
        length s.files,
        [],
        _,
        rw same refl,
        Any-append_right (λ k. k ≡ length s.files) s.missing _ (inl refl),
        get-append_length s.files _,
      )
      | inr other ↦
          first-Kept s (add_twin s entry [] []) d h v (other_digest s entry [] [] d other)
            (λ j a. Any-append_left (λ k. k ≡ j) s.missing _ a) (append-Kept s.files _)
    ];
  }

  -- Another file of a digest that is not on the disk: its contents come with the first one's.
  pub add_duplicate-IsSplit :
      (s : Split) (entry : FileMetadata) (j : ℕ) (js : List ℕ)
      → q entry.digest ≡ []
      → s.digests entry.digest ≡ j ∷ js
      → IsSplit s
      → IsSplit (add_twin s entry [] (j ∷ js))
  unfolding add_twin
  add_duplicate-IsSplit s entry j js e r v = elim (v.first entry.digest e) [
    | inl z ↦ absurd (cc)
    | inr (j', js', f, e', m, g) ↦
        let here : j' ≡ j = ground arith in
        let m' : Has j s.missing = subst (λ k. Has k s.missing) here m in
        let g' : get_elem? s.files j ≡ some f = ap (get_elem? s.files) (sym here) ∙ g in
        let id = length s.files in
        let kept : Kept s.files (add_duplicates id s.files (j ∷ js) ++ (_ ∷ [])) = λ k x hx.
          let (y, hy, b) = add_duplicates-Kept id s.files (j ∷ js) k x hx in
          (y, get-append_left _ _ k hy, b) in
        let (y, hy, b) = add_duplicates-Has id s.files j js g' in
        record {
          supplied = λ i h.
              elim (last_or_before i id (
                omega (
                  arith,
                  length-append (add_duplicates id s.files (j ∷ js)) (_ ∷ []),
                  add_duplicates-length id s.files (j ∷ js),
                ))) [
                  | inl old ↦
                      Supplied-mono s (add_twin s entry [] (j ∷ js)) i (λ k a. a) (λ k a. a) kept
                        (v.supplied i old)
                  | inr new ↦ inr (
                      inr (
                        j,
                        y,
                        m',
                        get-append_left _ _ j hy,
                        subst (λ k. Has k y.duplicates) (sym new) b,
                      ))
                ];
          first = λ d h. elim (Bool-cases (entry.digest == d)) [
            | inl same ↦ inr (j, js ++ (id ∷ []), y, rw same refl, m', get-append_left _ _ j hy)
            | inr other ↦
                first-Kept s (add_twin s entry [] (j ∷ js)) d h v
                  (other_digest s entry [] (j ∷ js) d other) (λ k a. a) kept
          ];
        }
  ]
