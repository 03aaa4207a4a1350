-- ===== src/Extractor/Contents/Requests.antt =====
-- `fetchAndApplyBlobRanges` over all groups: joining ranges changes no file.
use mysnapshotter.Prelude.{
  ℕ, ◌+◌, ◌≤◌, ◌≡◌, refl, sym, ap, ◌∙◌, inl, inr, List, [], ◌∷◌, ◌++◌, arith, Bool-cases, length,
  take, drop, All, All-append, All-of_append, Text, Result, ok,
}
use mathlib.Core.Path.{subst}
use mysnapshotter.Prelude.Int.{ℤ, pos, pos_part}
use mysnapshotter.Extractor.Files.{TocFile, ByteRangeGroup}
use mysnapshotter.Extractor.Ranges.{start_group, extend_group, joins, group_loop, group_sorted}
use mysnapshotter.Extractor.Ranges.Chains.{
  AllPlaced, IsPlaced, Spans, IsChain, all_files, group_sorted-files, group_sorted-IsChain,
}
use mysnapshotter.Extractor.System.{Os, M, after, ◌>>=◌, lift, named, for_each}
use mysnapshotter.Extractor.Contents.{Zstd, take_files, apply_group, fetch_and_apply_blob_ranges}
use mysnapshotter.Extractor.Contents.Slices.{
  from_part, window, AllWithin, Serves, take_files-window, for_each-append, after-cong,
}

abbrev NonEmpty : List TocFile → Type 0
NonEmpty [] = ⊥
NonEmpty (_ ∷ _) = Unit

append-NonEmpty : (fs : List TocFile) (f : TocFile) → NonEmpty (fs ++ (f ∷ []))
append-NonEmpty [] f = tt
append-NonEmpty (_ ∷ _) f = tt

abbrev HasFiles : ByteRangeGroup → Type 0
HasFiles g = NonEmpty g.files

group_loop-HasFiles :
    (fs : List TocFile) (gs : List ByteRangeGroup) (g : ByteRangeGroup)
    → All HasFiles gs
    → HasFiles g
    → All HasFiles (group_loop fs gs g)
unfolding group_loop
group_loop-HasFiles [] gs g a b = All-append HasFiles gs (g ∷ []) a (b, tt)
group_loop-HasFiles (f ∷ fs) gs g a b = elim (Bool-cases (joins g f)) [
  | inl j ↦ rw j (group_loop-HasFiles fs gs (extend_group g f) a (append-NonEmpty g.files f))
  | inr j ↦ rw j (
      group_loop-HasFiles fs (gs ++ (g ∷ [])) (start_group f)
        (All-append HasFiles gs (g ∷ []) a (b, tt)) tt)
]

group_sorted-HasFiles : (fs : List TocFile) → All HasFiles (group_sorted fs)
unfolding group_sorted
group_sorted-HasFiles [] = tt
group_sorted-HasFiles (f ∷ fs) = group_loop-HasFiles fs [] (start_group f) tt tt

All-of_groups :
    (P : TocFile → Type 0) (gs : List ByteRangeGroup)
    → All P (all_files gs)
    → All (λ g. All P g.files) gs
All-of_groups P [] h = tt
All-of_groups P (g ∷ gs) h =
    let (a, b) = All-of_append P g.files (all_files gs) h in (a, All-of_groups P gs b)

module _ (O : Os) (decode_base64 : Text → Result (List ℕ)) (Z : Zstd) (table : List TocFile)
    (root : Text) (blob : List ℕ) where
  open O use {World}

  abbrev read : TocFile → M World (Unit {0})
  read = from_part O decode_base64 Z table root blob

  abbrev Within : List TocFile → Type 0
  Within = AllWithin O decode_base64 Z table root blob

  Spans-Within :
      (fs : List TocFile) (p q : ℕ) → NonEmpty fs → Within fs → Spans p fs q → q ≤ length blob
  Spans-Within [] p q n h s = absurd n
  Spans-Within (f ∷ []) p q n h s = omega (arith, h.0, s.2)
  Spans-Within (f ∷ g ∷ fs) p q n h s =
      Spans-Within (g ∷ fs) (pos_part f.range.offset + pos_part f.range.size) q tt h.1 s.2

  apply_group-parts :
      (fetch : ℤ → ℤ → Result (List ℕ)) (g : ByteRangeGroup) (w : World)
      → Serves O decode_base64 Z table root blob fetch
      → IsChain g
      → HasFiles g
      → AllPlaced g.files
      → Within g.files
      → apply_group O decode_base64 Z table root fetch g w ≡ for_each g.files read w
  unfolding apply_group
  apply_group-parts fetch g w s c n v h =
      let p = pos_part g.start_offset in
      let q = p + pos_part g.size in
      let low = Spans-Within g.files p q n h c.3 in
      ap
        (λ m.
          (named "fetching layer chunk" (lift m) >>= λ stream.
          take_files O decode_base64 Z table root (stream, g.start_offset) g.files)
            w)
        (ap (λ a. fetch a g.size) c.0
          ∙ ap (fetch (pos p)) c.1
          ∙ s p (pos_part g.size) low
          ∙ ap (λ k. ok (take k (drop p blob))) (omega arith))
      ∙ ap
          (λ a.
            take_files O decode_base64 Z table root
              (window O decode_base64 Z table root blob p q, a) g.files w)
          c.0
      ∙ take_files-window O decode_base64 Z table root blob g.files p q w v c.3 low

  apply_groups-parts :
      (fetch : ℤ → ℤ → Result (List ℕ)) (gs : List ByteRangeGroup) (w : World)
      → Serves O decode_base64 Z table root blob fetch
      → All IsChain gs
      → All HasFiles gs
      → All (λ g. AllPlaced g.files) gs
      → All (λ g. Within g.files) gs
      → for_each gs (apply_group O decode_base64 Z table root fetch) w
        ≡ for_each (all_files gs) read w
  unfolding for_each
  apply_groups-parts fetch [] w s c n v h = refl
  apply_groups-parts fetch (g ∷ gs) w s c n v h =
      ap (λ r. after r (λ _. for_each gs (apply_group O decode_base64 Z table root fetch)))
        (apply_group-parts fetch g w s c.0 n.0 v.0 h.0)
      ∙ after-cong O decode_base64 Z table root blob (for_each g.files read w) _ _
          (λ _ w'. apply_groups-parts fetch gs w' s c.1 n.1 v.1 h.1)
      ∙ sym (for_each-append O decode_base64 Z table root blob g.files (all_files gs) read w)

  -- For files whose ranges lie in a blob of less than 2 ^ 63 bytes, with requests that give the
  -- blob's bytes: fetching the groups and reading their streams, gaps skipped, does to the world
  -- what decompressing each file from its own range of the blob does, in the same order, and ends
  -- in the same result or error.
  pub fetch_and_apply_blob_ranges-parts :
      (fetch : ℤ → ℤ → Result (List ℕ)) (fs : List TocFile) (w : World)
      → Serves O decode_base64 Z table root blob fetch
      → AllPlaced fs
      → AllWithin O decode_base64 Z table root blob fs
      → fetch_and_apply_blob_ranges O decode_base64 Z table root fetch (group_sorted fs) w
        ≡ for_each fs (from_part O decode_base64 Z table root blob) w
  unfolding fetch_and_apply_blob_ranges
  fetch_and_apply_blob_ranges-parts fetch fs w s v h =
      let same = group_sorted-files fs in
      apply_groups-parts fetch (group_sorted fs) w s (group_sorted-IsChain fs v)
        (group_sorted-HasFiles fs)
        (All-of_groups (λ f. IsPlaced f.range) (group_sorted fs) (subst AllPlaced (sym same) v))
        (All-of_groups _ (group_sorted fs) (subst Within (sym same) h))
      ∙ ap (λ l. for_each l read w) same
