-- ===== src/Extractor/Confined/Blobs.antt =====
-- The paths of the calls that decompress files from ranges of the blob.
use mysnapshotter.Prelude.{
  ℕ, zero, suc, true, Option, none, some, List, [], ◌∷◌, All, All-of_append, get_elem?, ltb, length,
  ◌≡◌, refl, sym, Text, wrap, nil_pointer, Result,
}
use mathlib.Core.Path.{subst}
use mathlib.Core.Bool.{Bool-set}
use mysnapshotter.Prelude.Int.{ℤ, pos_part}
use mysnapshotter.Prelude.Sorting.{Sorter, All-Perm}
use mysnapshotter.Paths.{is_abs, join}
use mysnapshotter.Paths.Below.{IsBelow, join-IsBelow}
use mysnapshotter.Extractor.Files.{TocFile, ByteRangeGroup}
use mysnapshotter.Extractor.Split.Kept.{some_inj}
use mysnapshotter.Extractor.Ranges.{offset_less, group_missing_files}
use mysnapshotter.Extractor.Ranges.Chains.{all_files, group_missing_files-files}
use mysnapshotter.Extractor.System.{
  Syscall, Reply, Os, M, fail, ◌>>=◌, ◌>>◌, lift, named, attempt, issue,
}
use mysnapshotter.Extractor.Maintaining.{
  IfOk, Whatever, Maintains, pure-Maintains, fail-Maintains, lift-Maintains, then-Maintains,
  bind-Maintains, named-Maintains, attempt-Maintains, if-Maintains, for_each-Maintains,
}
use mysnapshotter.Extractor.Nodes.{apply_metadata}
use mysnapshotter.Extractor.Contents.{
  Zstd, reflink_or_copy, copy_duplicate, or_eof, made_reader, drained, write_contents,
  decompress_file, take_after_gap, take_file, take_files, apply_group, fetch_and_apply_blob_ranges,
}
use mysnapshotter.Extractor.Confined.{IsNamedFile, Respects, any_ok, all-Whatever, issue-Maintains}
use mysnapshotter.Extractor.Confined.Metadata.{apply_metadata-Maintains, remove_if_exists-Maintains}
use mysnapshotter.Extractor.Confined.Contents.{reflink_or_copy-Maintains}

-- What holds of all elements holds of the one at a place, if there is one.
pub get-All :
    {A : Type 0} (P : A → Type 0) (xs : List A) (i : ℕ) {x : A}
    → All P xs
    → get_elem? xs i ≡ some x
    → P x
get-All P [] i h e = absurd (cc)
get-All P (x ∷ xs) zero h e = subst P (some_inj e) h.0
get-All P (x ∷ xs) (suc i) h e = get-All P xs i h.1 e

module _ (O : Os) (decode_base64 : Text → Result (List ℕ)) (root : Text) (I : O.World → Type 0)
    (H : Respects O root I) (rooted : is_abs root ≡ true) (Z : Zstd) (table : List TocFile)
    (named_table : All IsNamedFile table) where
  open O use {World}

  abbrev copy_found : Text → Option TocFile → M World (Unit {0})
  copy_found path o = elim o [
    | none ↦ fail nil_pointer
    | some dup ↦
        named "copying duplicates"
          (reflink_or_copy O decode_base64 (join root dup.entry.name) path dup.entry)
  ]

  copy_found-Maintains :
      (path : Text) (i : ℕ) (o : Option TocFile)
      → get_elem? table i ≡ o
      → Maintains I Whatever (copy_found path o)
  copy_found-Maintains path i none e = fail-Maintains I _
  copy_found-Maintains path i (some dup) e = named-Maintains I _ (
      reflink_or_copy-Maintains O decode_base64 root I H _ path dup.entry
        (join-IsBelow root dup.entry.name rooted (get-All IsNamedFile table i named_table e)))

  copy_duplicate-Maintains :
      (path : Text) (i : ℕ)
      → Maintains I Whatever (copy_duplicate O decode_base64 Z table root path i)
  unfolding copy_duplicate
  copy_duplicate-Maintains path i = copy_found-Maintains path i (get_elem? table i) refl

  write_contents-Maintains :
      (path : Text) (f : TocFile) (bytes : List ℕ)
      → IsBelow root path
      → Maintains I Whatever (write_contents O decode_base64 Z table root path f bytes)
  unfolding write_contents
  write_contents-Maintains path f bytes b =
      let out : List ℕ = (Z.decode bytes).0 in
      let rest : Result (Unit {0}) = drained O decode_base64 Z table root (Z.decode bytes).1 in
      then-Maintains I
        (lift-Maintains I (made_reader O decode_base64 Z table root Z.new_reader) (any_ok _))
        (then-Maintains I (issue-Maintains O root I H (Syscall.write path _) b) (
          then-Maintains I
            (if-Maintains I (ltb (length out) (pos_part f.entry.size))
              (fail-Maintains I (
                wrap "writing bytes for file"
                  (or_eof O decode_base64 Z table root (Z.decode bytes).1)))
              (pure-Maintains I tt tt))
            (then-Maintains I (lift-Maintains I rest (any_ok rest)) (
              for_each-Maintains I Whatever f.duplicates (all-Whatever _)
                (λ i _. copy_duplicate-Maintains path i)))))

  abbrev finished : Text → TocFile → Result (Unit {0}) → Result Reply → M World (Unit {0})
  finished path f written closed = do
    lift written
    named "closing output file" (lift closed)
    named "applying metadata to file" (apply_metadata O decode_base64 path f.entry)

  finished-Maintains :
      (path : Text) (f : TocFile) (written : Result (Unit {0})) (closed : Result Reply)
      → IsBelow root path
      → Maintains I Whatever (finished path f written closed)
  finished-Maintains path f written closed b =
      then-Maintains I (lift-Maintains I written (any_ok written)) (
        then-Maintains I
          (named-Maintains I "closing output file" (lift-Maintains I closed (any_ok closed)))
          (named-Maintains I "applying metadata to file"
            (apply_metadata-Maintains O decode_base64 root I H path f.entry b)))

  decompress_file-Maintains :
      (f : TocFile) (bytes : List ℕ)
      → IsNamedFile f
      → Maintains I Whatever (decompress_file O decode_base64 Z table root f bytes)
  unfolding decompress_file
  decompress_file-Maintains f bytes c =
      let path : Text = join root f.entry.name in
      let b : IsBelow root path = join-IsBelow root f.entry.name rooted c in
      then-Maintains I (remove_if_exists-Maintains O decode_base64 root I H path b) (
        then-Maintains I (issue-Maintains O root I H (Syscall.open_write path _) b) (
          bind-Maintains I (IfOk Whatever)
            {f = λ written. attempt (issue O (Syscall.close path)) >>= finished path f written}
            (attempt-Maintains I (write_contents-Maintains path f bytes b))
            (λ written _.
              bind-Maintains I (IfOk Whatever) {f = finished path f written}
                (attempt-Maintains I (issue-Maintains O root I H (Syscall.close path) tt))
                (λ closed _. finished-Maintains path f written closed b))))

  take_file-Maintains :
      (s : List ℕ × ℤ) (f : TocFile)
      → IsNamedFile f
      → Maintains I Whatever (take_file O decode_base64 Z table root s f)
  unfolding take_file take_after_gap
  take_file-Maintains (stream, at) f c =
      then-Maintains I (if-Maintains I _ (fail-Maintains I _) (pure-Maintains I tt tt)) (
        then-Maintains I (named-Maintains I _ (decompress_file-Maintains f _ c))
          (pure-Maintains I _ tt))

  take_files-Maintains :
      (s : List ℕ × ℤ) (fs : List TocFile)
      → All IsNamedFile fs
      → Maintains I Whatever (take_files O decode_base64 Z table root s fs)
  unfolding take_files
  take_files-Maintains s [] c = pure-Maintains I tt tt
  take_files-Maintains s (f ∷ fs) c =
      bind-Maintains I Whatever (take_file-Maintains s f c.0)
        (λ s' _. take_files-Maintains s' fs c.1)

  abbrev IsNamedGroup : ByteRangeGroup → Type 0
  IsNamedGroup g = All IsNamedFile g.files

  apply_group-Maintains :
      (fetch : ℤ → ℤ → Result (List ℕ)) (g : ByteRangeGroup)
      → IsNamedGroup g
      → Maintains I Whatever (apply_group O decode_base64 Z table root fetch g)
  unfolding apply_group
  apply_group-Maintains fetch g c =
      bind-Maintains I Whatever (named-Maintains I _ (lift-Maintains I _ (any_ok _)))
        (λ stream _. take_files-Maintains (stream, g.start_offset) g.files c)

  groups_named : (gs : List ByteRangeGroup) → All IsNamedFile (all_files gs) → All IsNamedGroup gs
  groups_named [] c = tt
  groups_named (g ∷ gs) c =
      let (l, r) = All-of_append IsNamedFile g.files (all_files gs) c in (l, groups_named gs r)

  -- The missing files are grouped, fetched and written.
  pub fetch_and_apply_blob_ranges-Maintains :
      (sorter : Sorter TocFile) (fetch : ℤ → ℤ → Result (List ℕ)) (missing : List TocFile)
      → All IsNamedFile missing
      → Maintains I Whatever (
          fetch_and_apply_blob_ranges O decode_base64 Z table root fetch
            (group_missing_files sorter missing))
  unfolding fetch_and_apply_blob_ranges
  fetch_and_apply_blob_ranges-Maintains sorter fetch missing c =
      let sorted : All IsNamedFile (Sorter.sort sorter offset_less missing) =
        All-Perm IsNamedFile (λ f. Bool-set _ _) (Sorter.sort-perm sorter _ missing) c in
      for_each-Maintains I IsNamedGroup _
        (groups_named _
          (subst (All IsNamedFile) (sym (group_missing_files-files sorter missing)) sorted))
        (apply_group-Maintains fetch)
