-- ===== src/Extractor/Split/Supply.antt =====
-- `processTOC`: no file is lost in the split.
use mysnapshotter.Prelude.{
  ℕ, ◌<◌, ◌≡◌, refl, sym, ◌⊎◌, inl, inr, ◌||◌, List, [], ◌∷◌, ◌++◌, Bool-cases, length, Text, ◌==◌,
}
use mathlib.Core.Path.{subst}
use mysnapshotter.Chunked.Data.{EntryType, FileMetadata}
use mysnapshotter.Paths.{clean}
use mysnapshotter.Extractor.Layer.{LayerCtx, filter_whiteout, is_parent_whiteout, mark}
use mysnapshotter.Extractor.Split.{
  Split, add_twin, add_file, place, process_entry, process_entries, start, is_zero, is_chunk,
}
use mysnapshotter.Extractor.Split.Twins.{
  Supplied, IsSplit, start-IsSplit, add_cached-IsSplit, add_missing-IsSplit, add_duplicate-IsSplit,
}

list_cases : {A : Type 0} (xs : List A) → (xs ≡ []) ⊎ ((y : A) × (ys : List A) × (xs ≡ y ∷ ys))
list_cases [] = inl refl
list_cases (y ∷ ys) = inr (y, ys, refl)

module _ (q : Text → List Text) where
  add_file-IsSplit :
      (s : Split) (entry : FileMetadata)
      → IsSplit q s
      → IsSplit q (add_file s entry (q entry.digest))
  unfolding add_file
  add_file-IsSplit s entry v = elim (list_cases (q entry.digest)) [
    | inr (p, ps, e) ↦
        subst (λ l. IsSplit q (add_twin s entry l (s.digests entry.digest))) (sym e)
          (add_cached-IsSplit q s entry p ps (s.digests entry.digest) e v)
    | inl e ↦ elim (list_cases (s.digests entry.digest)) [
      | inl r ↦ rw (e, r) (add_missing-IsSplit q s entry v)
      | inr (j, js, r) ↦ rw (e, r) (add_duplicate-IsSplit q s entry j js e r v)
    ]
  ]

  relabel :
      (s : Split) (nodes : List FileMetadata) (lc : LayerCtx)
      → IsSplit q s
      → IsSplit q (record s { structure = nodes; ctx = lc })
  relabel s nodes lc v = record { supplied = v.supplied; first = v.first }

  place-IsSplit :
      (s : Split) (entry : FileMetadata) (t : EntryType)
      → IsSplit q s
      → IsSplit q (place (λ n d. q d) s entry t)
  unfolding place
  place-IsSplit s entry EntryType.reg v =
      elim (Bool-cases (is_zero entry.size || entry.digest == [])) [
        | inl e ↦ rw e (relabel s (s.structure ++ (entry ∷ [])) s.ctx v)
        | inr e ↦ rw e (add_file-IsSplit s entry v)
      ]
  place-IsSplit s entry EntryType.chunk v = v
  place-IsSplit s entry (EntryType.other _) v = v
  place-IsSplit s entry EntryType.link v = relabel s (s.structure ++ (entry ∷ [])) s.ctx v
  place-IsSplit s entry EntryType.char v = relabel s (s.structure ++ (entry ∷ [])) s.ctx v
  place-IsSplit s entry EntryType.block v = relabel s (s.structure ++ (entry ∷ [])) s.ctx v
  place-IsSplit s entry EntryType.dir v = relabel s (s.structure ++ (entry ∷ [])) s.ctx v
  place-IsSplit s entry EntryType.fifo v = relabel s (s.structure ++ (entry ∷ [])) s.ctx v
  place-IsSplit s entry EntryType.symlink v = relabel s (s.structure ++ (entry ∷ [])) s.ctx v

  process_entry-IsSplit :
      (s : Split) (entry : FileMetadata)
      → IsSplit q s
      → IsSplit q (process_entry (λ n d. q d) s entry)
  unfolding process_entry
  process_entry-IsSplit s entry v =
      let path = clean entry.name in
      let lc = (filter_whiteout s.ctx path).0 in
      let next = record lc { seen_paths = mark path lc.seen_paths } in
      elim (Bool-cases (is_chunk entry.type)) [
        | inl a ↦ rw a v
        | inr a ↦
            elim (Bool-cases
              ((filter_whiteout s.ctx path).1 || is_parent_whiteout lc.whiteouts path)) [
                | inl b ↦ rw (a, b) (relabel s s.structure lc v)
                | inr b ↦ elim (Bool-cases (lc.seen_paths path)) [
                  | inl c ↦ rw (a, b, c) (relabel s s.structure lc v)
                  | inr c ↦
                      rw (a, b, c)
                        (place-IsSplit (record s { ctx = next }) entry entry.type
                          (relabel s s.structure next v))
                ]
              ]
      ]

  process_entries-IsSplit :
      (s : Split) (entries : List FileMetadata)
      → IsSplit q s
      → IsSplit q (process_entries (λ n d. q d) s entries)
  unfolding process_entries
  process_entries-IsSplit s [] v = v
  process_entries-IsSplit s (e ∷ es) v =
      process_entries-IsSplit (process_entry (λ n d. q d) s e) es (process_entry-IsSplit s e v)

  -- If the database gives one answer for a digest, then of the entries in any order, after the
  -- upper layers, every file that is made is fetched, is copied from the disk, or is a duplicate of
  -- a file that is fetched: none is lost.
  pub process_entries-Supplied :
      (lc : LayerCtx) (entries : List FileMetadata) (i : ℕ)
      → i < length (process_entries (λ n d. q d) (start lc) entries).files
      → Supplied (process_entries (λ n d. q d) (start lc) entries) i
  process_entries-Supplied lc entries i h =
      (process_entries-IsSplit (start lc) entries (start-IsSplit q lc)).supplied i h
