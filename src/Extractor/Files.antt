-- ===== src/Extractor/Files.antt =====
-- The files of pkg/extractor/toc_process.go that are fetched or copied.
use mysnapshotter.Prelude.{ℕ, List, Text}
use mysnapshotter.Prelude.Int.{ℤ}
use mysnapshotter.Chunked.Data.{FileMetadata}

-- `byteRange`.
pub record ByteRange : Type 0 where
  pub offset : ℤ
  pub size : ℤ

-- `tocFile`. A file's duplicates are pointers to other files of the table: places in the list of
-- all files made.
pub record TocFile : Type 0 where
  pub entry : FileMetadata
  pub cached_paths : List Text
  pub duplicates : List ℕ
  pub range : ByteRange

-- `byteRangeGroup`.
pub record ByteRangeGroup : Type 0 where
  pub start_offset : ℤ
  pub size : ℤ
  pub files : List TocFile
