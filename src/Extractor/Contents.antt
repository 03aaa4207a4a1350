-- ===== src/Extractor/Contents.antt =====
-- File contents of pkg/extractor/chunked_extraction.go: what is copied from cached paths and what is
-- decompressed from ranges of the blob. The zstd decoder (github.com/klauspost/compress) is a parameter.
pub mod Slices
pub mod Requests
use mysnapshotter.Prelude.{
  ℕ, true, Option, none, some, List, [], ◌∷◌, ltb, if◌then◌else◌, length, get_elem?, take, drop,
  Text, Error, message, wrap, external, nil_pointer, Result, ok, err,
}
use mysnapshotter.Prelude.Int.{ℤ, pos, pos_part}
use mysnapshotter.Prelude.Int64.{add64, sub64, leb_ℤ}
use mysnapshotter.Paths.{join}
use mysnapshotter.Chunked.Data.{FileMetadata}
use mysnapshotter.Extractor.Files.{TocFile, ByteRangeGroup}
use mysnapshotter.Extractor.System.{
  Syscall, Reply, Os, M, pure, fail, ◌>>=◌, ◌>>◌, lift, named, attempt, for_each, issue,
  remove_if_exists,
}
use mysnapshotter.Extractor.Nodes.{uint32, apply_metadata}

-- The error of making a reader, and what is read before the end or an error.
pub record Zstd : Type 0 where
  pub new_reader : Option Error
  pub decode : List ℕ → List ℕ × Option Error

-- How far a file lies behind the position in the blob; with overflow the distance is negative, and
-- `io.CopyN` skips nothing then.
abbrev pub gap_before : ℤ → ℤ → ℤ
gap_before at offset = if leb_ℤ offset at then pos 0 else sub64 offset at

module _ (O : Os) (decode_base64 : Text → Result (List ℕ)) where
  open O use {World}

  unfoldable pub check_regular : Reply → Result (Unit {0})
  check_regular (Reply.regular true) = ok tt
  check_regular _ = err (message "non-regular source file")

  -- The clone, or the copy where it is not supported.
  unfoldable pub clone_or_copy : Text → Text → M World (Unit {0})
  clone_or_copy target source = do
    cloned ← attempt (issue O (Syscall.clone target source))
    (elim cloned [
      | ok _ ↦ pure tt
      | err e ↦
          if O.is_clone_unsupported e
          then (do
            named "seeking file before copying" (issue O (Syscall.seek_start source))
            named "copying" (issue O (Syscall.copy target source))
            pure tt)
          else fail (wrap "reflinking" e)
    ])

  unfoldable pub fill_target : Text → Text → FileMetadata → M World (Unit {0})
  unfolding clone_or_copy apply_metadata
  fill_target target source entry = do
    clone_or_copy target source
    named "synching target file" (issue O (Syscall.sync target))
    named "closing file" (issue O (Syscall.close target))
    named "applying metadata to target file" (apply_metadata O decode_base64 target entry)

  -- The target is removed again if anything fails once it is open.
  unfoldable pub copy_to_target : Text → Text → FileMetadata → M World (Unit {0})
  unfolding check_regular fill_target
  copy_to_target target source entry = do
    info ← named "stat file" (issue O (Syscall.stat source))
    lift (check_regular info)
    issue O (Syscall.open_write target 448)
    filled ← attempt (fill_target target source entry)
    (elim filled [
      | ok _ ↦ pure tt
      | err e ↦ do
        attempt (issue O (Syscall.close target))
        attempt (issue O (Syscall.remove target))
        fail e
    ])

  -- `reflinkOrCopy`.
  unfoldable pub reflink_or_copy : Text → Text → FileMetadata → M World (Unit {0})
  unfolding copy_to_target
  reflink_or_copy target source entry = do
    named "opening file" (issue O (Syscall.open_read source))
    copied ← attempt (copy_to_target target source entry)
    closed ← attempt (issue O (Syscall.close source))
    (elim copied [ err e ↦ fail e | ok _ ↦ (elim closed [ ok _ ↦ pure tt | err e ↦ fail e ]) ])

  -- The loop over the cached paths: the result of the last copy stays.
  unfoldable pub copy_cached :
      Text → FileMetadata → List Text → Result (Unit {0}) → M World (Result (Unit {0}))
  unfolding reflink_or_copy
  copy_cached target entry [] last = pure last
  copy_cached target entry (c ∷ cs) last = do
    r ← attempt (reflink_or_copy target c entry)
    copy_cached target entry cs r

  unfoldable pub apply_cached_file : Text → TocFile → M World (Unit {0})
  unfolding copy_cached
  apply_cached_file root f = do
    r ← copy_cached (join root f.entry.name) f.entry f.cached_paths (ok tt)
    named "failed extracting from cached paths" (lift r)

  -- `applyCachedFiles`. A file with no cached paths copies nothing.
  unfoldable pub apply_cached_files : Text → List TocFile → M World (Unit {0})
  unfolding apply_cached_file for_each
  apply_cached_files root files = for_each files (apply_cached_file root)

  module _ (Z : Zstd) (table : List TocFile) (root : Text) where
    -- A duplicate is a copy of the file at `path`; a place outside the table is a nil pointer.
    unfoldable pub copy_duplicate : Text → ℕ → M World (Unit {0})
    unfolding reflink_or_copy
    copy_duplicate path i = elim (get_elem? table i) [
      | none ↦ fail nil_pointer
      | some dup ↦
          named "copying duplicates" (reflink_or_copy (join root dup.entry.name) path dup.entry)
    ]

    abbrev pub or_eof : Option Error → Error
    or_eof none = external "EOF"
    or_eof (some e) = e

    abbrev pub made_reader : Option Error → Result (Unit {0})
    made_reader none = ok tt
    made_reader (some _) = err (message "uncompressing stream for file")

    abbrev pub drained : Option Error → Result (Unit {0})
    drained none = ok tt
    drained (some e) = err (wrap "discarding bytes from uncompressed stream" e)

    -- The contents: as many decompressed bytes as the entry's size, and then the duplicates.
    unfoldable pub write_contents : Text → TocFile → List ℕ → M World (Unit {0})
    unfolding copy_duplicate for_each
    write_contents path f bytes = do
      lift (made_reader Z.new_reader)
      let (out, e) = Z.decode bytes
      let size = pos_part f.entry.size
      issue O (Syscall.write path (take size out))
      (if ltb (length out) size then fail (wrap "writing bytes for file" (or_eof e)) else pure tt)
      lift (drained e)
      for_each f.duplicates (copy_duplicate path)

    -- `decompressFile`, from the bytes that the limited reader leaves it.
    unfoldable pub decompress_file : TocFile → List ℕ → M World (Unit {0})
    unfolding write_contents apply_metadata remove_if_exists
    decompress_file f bytes = do
      let path = join root f.entry.name
      remove_if_exists O path
      issue O (Syscall.open_write path (uint32 f.entry.mode))
      written ← attempt (write_contents path f bytes)
      closed ← attempt (issue O (Syscall.close path))
      lift written
      named "closing output file" (lift closed)
      named "applying metadata to file" (apply_metadata O decode_base64 path f.entry)

    -- The part of the loop after the gap is known: it is skipped, and the reader of the file is
    -- limited to its range.
    unfoldable pub take_after_gap : ℤ → List ℕ × ℤ → TocFile → M World (List ℕ × ℤ)
    take_after_gap gap (stream, at) f = do
      (if ltb (length stream) (pos_part gap)
          then fail (wrap "discarting gaps between ranges" (external "EOF"))
          else pure tt)
      let rest = drop (pos_part gap) stream
      named "decompressing file from zstd:chunked file range"
          (decompress_file f (take (pos_part f.range.size) rest))
      pure (drop (pos_part f.range.size) rest, add64 (add64 at gap) f.range.size)

    -- One file of a group, from the stream and its position in the blob.
    unfoldable pub take_file : List ℕ × ℤ → TocFile → M World (List ℕ × ℤ)
    unfolding take_after_gap
    take_file (stream, at) f = take_after_gap (gap_before at f.range.offset) (stream, at) f

    unfoldable pub take_files : List ℕ × ℤ → List TocFile → M World (Unit {0})
    unfolding take_file
    take_files s [] = pure tt
    take_files s (f ∷ fs) = do s' ← take_file s f; take_files s' fs

    -- One request of `fetchAndApplyBlobRanges`, with `ocistore.FetchRange` on the layer.
    unfoldable pub apply_group : (ℤ → ℤ → Result (List ℕ)) → ByteRangeGroup → M World (Unit {0})
    unfolding take_files
    apply_group fetch g = do
      stream ← named "fetching layer chunk" (lift (fetch g.start_offset g.size))
      take_files (stream, g.start_offset) g.files

    -- `fetchAndApplyBlobRanges`.
    unfoldable pub fetch_and_apply_blob_ranges :
        (ℤ → ℤ → Result (List ℕ)) → List ByteRangeGroup → M World (Unit {0})
    unfolding apply_group for_each
    fetch_and_apply_blob_ranges fetch groups = for_each groups (apply_group fetch)
