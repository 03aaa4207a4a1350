-- ===== src/Chunked/Data.antt =====
-- The data of pkg/chunked/tocutil.go: entries, the table of contents and its location.
use mysnapshotter.Prelude.{ℕ, Option, List, Text}
use mysnapshotter.Prelude.Int.{ℤ}

-- The entry type constants; any other text is possible.
pub data EntryType : Type 0 where
  reg link char block dir fifo symlink chunk : EntryType
  other : Text → EntryType

-- `FileMetadata`. Times are nanoseconds.
pub record FileMetadata : Type 0 where
  pub type : EntryType
  pub name : Text
  pub linkname : Text
  pub mode : ℤ
  pub size : ℤ
  pub uid : ℤ
  pub gid : ℤ
  pub mod_time : Option ℤ
  pub access_time : Option ℤ
  pub change_time : Option ℤ
  pub devmajor : ℤ
  pub devminor : ℤ
  pub xattrs : List (Text × Text)
  pub digest : Text
  pub offset : ℤ
  pub end_offset : ℤ
  pub chunk_size : ℤ
  pub chunk_offset : ℤ
  pub chunk_digest : Text
  pub chunk_type : Text

-- `TOC`.
pub record Toc : Type 0 where
  pub version : ℤ
  pub entries : List FileMetadata
  pub tar_split_digest : Text

-- `TOCLocation`: the numbers are uint64.
pub record TocLocation : Type 0 where
  pub offset : ℕ
  pub length_compressed : ℕ
  pub length_uncompressed : ℕ
  pub digest : Text
