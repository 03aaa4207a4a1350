-- ===== src/Extractor/Contents/Slices.antt =====
-- `fetchAndApplyBlobRanges`: every file is decompressed from its own range of the blob.
use mysnapshotter.Prelude.{
  ℕ, ◌+◌, ◌-◌, ◌≤◌, ◌<◌, ◌≡◌, refl, sym, ap, ◌∙◌, false, List, [], ◌∷◌, ◌++◌, arith, ltb, length,
  take, drop, All, Text, Result, ok, err,
}
use mysnapshotter.Prelude.Int.{ℤ, pos, pos_part}
use mysnapshotter.Prelude.Int64.{add64, int64_limit, add64_pos, sub64_pos}
use mysnapshotter.Prelude.Slices.{length-drop, length-take, drop-drop, take-take, drop-take}
use mysnapshotter.Extractor.Files.{ByteRange, TocFile}
use mysnapshotter.Extractor.Ranges.Chains.{AllPlaced, Spans}
use mysnapshotter.Extractor.System.{Os, M, pure, after, ◌>>=◌, named, for_each}
use mysnapshotter.Extractor.Contents.{
  Zstd, decompress_file, gap_before, take_after_gap, take_file, take_files,
}

-- The bytes of a range.
abbrev pub part : List ℕ → ByteRange → List ℕ
part blob r = take (pos_part r.size) (drop (pos_part r.offset) blob)

Spans-le : (p : ℕ) (fs : List TocFile) (q : ℕ) → Spans p fs q → p ≤ q
Spans-le p [] q h = omega arith
Spans-le p (f ∷ fs) q h =
    omega (arith, Spans-le (pos_part f.range.offset + pos_part f.range.size) fs q h.2)

gap_before-eq : (p o : ℕ) → p ≤ o → o < int64_limit → gap_before (pos p) (pos o) ≡ pos (o - p)
gap_before-eq p o h k = ground (arith, sub64_pos o p k)

module _ (O : Os) (decode_base64 : Text → Result (List ℕ)) (Z : Zstd) (table : List TocFile)
    (root : Text) (blob : List ℕ) where
  open O use {World}

  -- A file from its own range, as the loop names the error.
  abbrev pub from_part : TocFile → M World (Unit {0})
  from_part f =
      named "decompressing file from zstd:chunked file range"
        (decompress_file O decode_base64 Z table root f (part blob f.range))

  -- What is left of a request's stream at byte `p`, where the request ends at byte `q`.
  abbrev pub window : ℕ → ℕ → List ℕ
  window p q = take (q - p) (drop p blob)

  after-after :
      {B : Type 0} (r : Result (Unit {0}) × World) (s : List ℕ × ℤ) (k : List ℕ × ℤ → M World B)
      → after (after r (λ _. pure s)) k ≡ after r (λ _. k s)
  after-after (ok _, w) s k = refl
  after-after (err e, w) s k = refl

  after_assoc :
      {A B D : Type 0} (r : Result A × World) (k : A → M World B) (l : B → M World D)
      → after r (λ a. k a >>= l) ≡ after (after r k) l
  after_assoc (ok _, w) k l = refl
  after_assoc (err e, w) k l = refl

  pub after-cong :
      {A B : Type 0} (r : Result A × World) (k l : A → M World B)
      → ((a : A) (w : World) → k a w ≡ l a w)
      → after r k ≡ after r l
  after-cong (ok a, w) k l h = h a w
  after-cong (err e, w) k l h = refl

  take_after_gap-eq :
      (gap : ℕ) (stream rest bytes : List ℕ) (at e : ℤ) (f : TocFile) (w : World)
      → ltb (length stream) gap ≡ false
      → take (pos_part f.range.size) (drop gap stream) ≡ bytes
      → drop (pos_part f.range.size) (drop gap stream) ≡ rest
      → add64 (add64 at (pos gap)) f.range.size ≡ e
      → take_after_gap O decode_base64 Z table root (pos gap) (stream, at) f w
        ≡ after
            (named "decompressing file from zstd:chunked file range"
              (decompress_file O decode_base64 Z table root f bytes)
              w)
            (λ _. pure (rest, e))
  unfolding take_after_gap
  take_after_gap-eq gap stream rest bytes at e f w h a b c = rw (h, a, b, c) refl

  window-drop : (m p q k : ℕ) → k ≡ p + m → k ≤ q → drop m (window p q) ≡ window k q
  window-drop m p q k h a =
      drop-take m (q - p) (q - k) (drop p blob) (omega arith)
      ∙ ap (take (q - k)) (drop-drop m p k blob h)

  window-length : (p q : ℕ) → p ≤ q → q ≤ length blob → length (window p q) ≡ q - p
  window-length p q a b = length-take (q - p) (drop p blob) (omega (arith, length-drop p blob))

  take_file-window :
      (p q o z : ℕ) (f : TocFile) (w : World)
      → f.range ≡ record { offset = pos o; size = pos z }
      → o + z < int64_limit
      → p ≤ o
      → o + z ≤ q
      → q ≤ length blob
      → take_file O decode_base64 Z table root (window p q, pos p) f w
        ≡ after (from_part f w) (λ _. pure (window (o + z) q, pos (o + z)))
  unfolding take_file
  take_file-window p q o z f w h k a b c =
      let size : pos_part f.range.size ≡ z = ap (λ r. pos_part r.size) h in
      let skipped = window-drop (o - p) p q o (omega arith) (omega arith) in
      ap (λ g. take_after_gap O decode_base64 Z table root g (window p q, pos p) f w)
        (ap (λ r. gap_before (pos p) r.offset) h ∙ gap_before-eq p o a (omega arith))
      ∙ take_after_gap-eq (o - p) (window p q) (window (o + z) q) (part blob f.range) (pos p)
          (pos (o + z)) f w (ground (arith, window-length p q))
          (ap (take (pos_part f.range.size)) skipped
            ∙ ap (λ n. take n (window o q)) size
            ∙ take-take z (q - o) (drop o blob) (omega arith)
            ∙ sym (ap (part blob) h))
          (ap (drop (pos_part f.range.size)) skipped
            ∙ ap (λ n. drop n (window o q)) size
            ∙ window-drop z o q (o + z) refl b)
          (ap (λ r. add64 (add64 (pos p) (pos (o - p))) r.size) h
            ∙ ap (λ n. add64 n (pos z)) (add64_pos p (o - p) (omega arith))
            ∙ add64_pos (p + (o - p)) z (omega arith)
            ∙ ap pos (omega arith))

  -- The files of a request, whose range is exactly what they span.
  pub take_files-window :
      (fs : List TocFile) (p q : ℕ) (w : World)
      → AllPlaced fs
      → Spans p fs q
      → q ≤ length blob
      → take_files O decode_base64 Z table root (window p q, pos p) fs w ≡ for_each fs from_part w
  unfolding take_files for_each
  take_files-window [] p q w v h a = refl
  take_files-window (f ∷ fs) p q w v h a =
      let o = pos_part f.range.offset in
      let z = pos_part f.range.size in
      ap (λ r. after r (λ s. take_files O decode_base64 Z table root s fs))
        (take_file-window p q o z f w (λ i. record { offset = v.0.0 i; size = v.0.1 i }) v.0.2 h.0
          (Spans-le (o + z) fs q h.2) a)
      ∙ after-after (from_part f w) (window (o + z) q, pos (o + z))
          (λ s. take_files O decode_base64 Z table root s fs)
      ∙ after-cong (from_part f w) _ _ (λ _ w'. take_files-window fs (o + z) q w' v.1 h.2 a)

  pub for_each-append :
      (xs ys : List TocFile) (f : TocFile → M World (Unit {0})) (w : World)
      → for_each (xs ++ ys) f w ≡ after (for_each xs f w) (λ _. for_each ys f)
  unfolding for_each
  for_each-append [] ys f w = refl
  for_each-append (x ∷ xs) ys f w =
      after-cong (f x w) _ _ (λ _ w'. for_each-append xs ys f w') ∙ after_assoc (f x w) _ _

  -- The blob has the ranges of all the files.
  abbrev pub AllWithin : List TocFile → Type 0
  AllWithin = All (λ f. pos_part f.range.offset + pos_part f.range.size ≤ length blob)

  -- A range request gives these bytes of the blob.
  abbrev pub Serves : (ℤ → ℤ → Result (List ℕ)) → Type 0
  Serves fetch = (p n : ℕ) → p + n ≤ length blob → fetch (pos p) (pos n) ≡ ok (take n (drop p blob))
