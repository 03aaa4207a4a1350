-- ===== src/Extractor/Ranges/Chains.antt =====
-- The groups of `groupMissingFiles`: what they hold and what they span.
use mysnapshotter.Prelude.{
  ℕ, ◌+◌, ◌-◌, ◌≤◌, ◌<◌, ◌≡◌, refl, ◌∙◌, inl, inr, true, List, [], ◌∷◌, ◌++◌, append-nil,
  append_assoc, arith, Bool-cases, All, All-append,
}
use mysnapshotter.Prelude.Int.{pos, pos_part, sub_ℕ}
use mysnapshotter.Prelude.Int64.{add64, sub64, int64_limit, add64_pos, sub64_pos}
use mysnapshotter.Prelude.Sorting.{Sorter}
use mysnapshotter.Extractor.Files.{ByteRange, TocFile, ByteRangeGroup}
use mysnapshotter.Extractor.Ranges.{
  gap_threshold, start_group, extend_group, joins, group_loop, group_sorted, offset_less,
  group_missing_files,
}

-- A range inside a blob of less than 2 ^ 63 bytes.
abbrev pub IsPlaced : ByteRange → Type 0
IsPlaced r =
    (r.offset ≡ pos (pos_part r.offset))
    × (r.size ≡ pos (pos_part r.size))
    × (pos_part r.offset + pos_part r.size < int64_limit)

abbrev pub AllPlaced : List TocFile → Type 0
AllPlaced = All (λ f. IsPlaced f.range)

-- From byte `p` up to byte `q` lie the files' ranges, in order, with gaps up to the threshold.
abbrev pub Spans : ℕ → List TocFile → ℕ → Type 0
Spans p [] q = p ≡ q
Spans p (f ∷ fs) q =
    (p ≤ pos_part f.range.offset)
    × (pos_part f.range.offset ≤ p + gap_threshold)
    × Spans (pos_part f.range.offset + pos_part f.range.size) fs q

-- The request of a group is exactly what its files span.
abbrev pub IsChain : ByteRangeGroup → Type 0
IsChain g =
    (g.start_offset ≡ pos (pos_part g.start_offset))
    × (g.size ≡ pos (pos_part g.size))
    × (pos_part g.start_offset + pos_part g.size < int64_limit)
    × Spans (pos_part g.start_offset) g.files (pos_part g.start_offset + pos_part g.size)

abbrev pub all_files : List ByteRangeGroup → List TocFile
all_files [] = []
all_files (g ∷ gs) = g.files ++ all_files gs

all_files-append :
    (gs hs : List ByteRangeGroup) → all_files (gs ++ hs) ≡ all_files gs ++ all_files hs
all_files-append [] hs = refl
all_files-append (g ∷ gs) hs = rw (all_files-append gs hs, append_assoc)

Spans-snoc :
    (p : ℕ) (fs : List TocFile) (q : ℕ) (f : TocFile)
    → Spans p fs q
    → q ≤ pos_part f.range.offset
    → pos_part f.range.offset ≤ q + gap_threshold
    → Spans p (fs ++ (f ∷ [])) (pos_part f.range.offset + pos_part f.range.size)
Spans-snoc p [] q f h a b = (omega arith, omega arith, refl)
Spans-snoc p (g ∷ fs) q f h a b =
    (h.0, h.1, Spans-snoc (pos_part g.range.offset + pos_part g.range.size) fs q f h.2 a b)

start_group-IsChain : (f : TocFile) → IsPlaced f.range → IsChain (start_group f)
unfolding start_group
start_group-IsChain f h = (h.0, h.1, h.2, (omega arith, omega arith, refl))

-- What a join means for the numbers.
joins-bounds :
    (g : ByteRangeGroup) (f : TocFile)
    → IsChain g
    → IsPlaced f.range
    → joins g f ≡ true
    → (pos_part g.start_offset + pos_part g.size ≤ pos_part f.range.offset)
      × (pos_part f.range.offset ≤ pos_part g.start_offset + pos_part g.size + gap_threshold)
unfolding joins
joins-bounds g f c h j =
    let s = pos_part g.start_offset in
    let n = pos_part g.size in
    let o = pos_part f.range.offset in
    let gap : sub64 f.range.offset (add64 g.start_offset g.size) ≡ sub_ℕ o (s + n) =
      rw (h.0, c.0, c.1, add64_pos s n c.2) (sub64_pos o (s + n) (omega arith) c.2) in
    ground arith

extend_group-IsChain :
    (g : ByteRangeGroup) (f : TocFile)
    → IsChain g
    → IsPlaced f.range
    → joins g f ≡ true
    → IsChain (extend_group g f)
unfolding extend_group
extend_group-IsChain g f c h j =
    let s = pos_part g.start_offset in
    let n = pos_part g.size in
    let o = pos_part f.range.offset in
    let z = pos_part f.range.size in
    let (low, high) = joins-bounds g f c h j in
    let size : sub64 (add64 f.range.offset f.range.size) g.start_offset ≡ pos (o + z - s) =
      rw (h.0, h.1, c.0, add64_pos o z h.2, sub64_pos (o + z) s h.2 (omega arith)) (ground arith) in
    let end : s + (o + z - s) ≡ o + z = omega arith in
    (
      c.0,
      rw size refl,
      rw size (omega arith),
      rw (size, end) (Spans-snoc s g.files (s + n) f c.3 low high),
    )

-- The loop keeps every group a chain.
group_loop-IsChain :
    (fs : List TocFile) (gs : List ByteRangeGroup) (g : ByteRangeGroup)
    → AllPlaced fs
    → All IsChain gs
    → IsChain g
    → All IsChain (group_loop fs gs g)
unfolding group_loop
group_loop-IsChain [] gs g p cs c = All-append IsChain gs (g ∷ []) cs (c, tt)
group_loop-IsChain (f ∷ fs) gs g p cs c = elim (Bool-cases (joins g f)) [
  | inl j ↦
      rw j (group_loop-IsChain fs gs (extend_group g f) p.1 cs (extend_group-IsChain g f c p.0 j))
  | inr j ↦ rw j (
      group_loop-IsChain fs (gs ++ (g ∷ [])) (start_group f) p.1
        (All-append IsChain gs (g ∷ []) cs (c, tt)) (start_group-IsChain f p.0))
]

group_loop-files :
    (fs : List TocFile) (gs : List ByteRangeGroup) (g : ByteRangeGroup)
    → all_files (group_loop fs gs g) ≡ all_files gs ++ (g.files ++ fs)
unfolding group_loop
group_loop-files [] gs g = all_files-append gs (g ∷ [])
group_loop-files (f ∷ fs) gs g = elim (Bool-cases (joins g f)) [
  | inl j ↦ rw j (group_loop-files fs gs (extend_group g f) ∙ rw (append_assoc) refl)
  | inr j ↦ rw j (
      group_loop-files fs (gs ++ (g ∷ [])) (start_group f)
      ∙ rw (all_files-append gs (g ∷ [])) (simp (append_assoc, append-nil)))
]

-- Cutting the sorted files into groups leaves their order.
pub group_sorted-files : (fs : List TocFile) → all_files (group_sorted fs) ≡ fs
unfolding group_sorted
group_sorted-files [] = refl
group_sorted-files (f ∷ fs) = group_loop-files fs [] (start_group f)

-- The groups hold every missing file once, in the sorted order.
pub group_missing_files-files :
    (sorter : Sorter TocFile) (fs : List TocFile)
    → all_files (group_missing_files sorter fs) ≡ sorter.sort offset_less fs
unfolding group_missing_files
group_missing_files-files sorter fs = group_sorted-files (sorter.sort offset_less fs)

-- For files that lie in a blob of less than 2 ^ 63 bytes, the range of every group is exactly what
-- its files span, in order and without overlap, with gaps up to the threshold.
pub group_sorted-IsChain : (fs : List TocFile) → AllPlaced fs → All IsChain (group_sorted fs)
unfolding group_sorted
group_sorted-IsChain [] p = tt
group_sorted-IsChain (f ∷ fs) p =
    group_loop-IsChain fs [] (start_group f) p.1 tt (start_group-IsChain f p.0)
