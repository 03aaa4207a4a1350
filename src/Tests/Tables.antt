-- ===== src/Tests/Tables.antt =====
-- Footers, annotations, tables of contents and byte ranges.
use mysnapshotter.Prelude.{
  ◌<◌, ℕ, ◌≤◌, ◌≡◌, refl, ◌⊎◌, none, some, List, [], ◌∷◌, ◌++◌, map, arith, if◌then◌else◌, length,
  take, All, Text, codes, text_dec, ◌==◌, ok,
}
use mysnapshotter.Prelude.{cut_prefix}
use mysnapshotter.Prelude.Int.{pos}
use mysnapshotter.Prelude.Int64.{add64, sub64}
use mysnapshotter.Prelude.Sorting.{Sorter}
use mysnapshotter.Chunked.Data.{EntryType, FileMetadata, Toc, TocLocation}
use mysnapshotter.Chunked.Footer.{parse_footer_frame}
use mysnapshotter.Chunked.Footer.Layout.{footer_frame, parse_footer_frame-footer_frame}
use mysnapshotter.Chunked.Toc.{
  Annotations, manifest_info_key, manifest_checksum_key, parse_uint, parse_annotations, Codecs,
  hex_decode, max_toc_size, parse_toc, text_or_empty,
}
use mysnapshotter.Chunked.Toc.Laws.{parse_annotations-fields, parse_toc-ok}
use mysnapshotter.Extractor.Files.{TocFile}
use mysnapshotter.Extractor.Ranges.{offset_less, group_sorted, group_missing_files}
use mysnapshotter.Extractor.Ranges.Chains.{
  AllPlaced, IsChain, all_files, group_missing_files-files, group_sorted-IsChain,
}
use mysnapshotter.Extractor.Layer.{new_layer_ctx, filter_whiteout, is_parent_whiteout}
use mysnapshotter.Extractor.Split.{Split, process_entries, start}
use mysnapshotter.Paths.{base, dir, clean}
use mysnapshotter.Extractor.Split.Twins.{Supplied}
use mysnapshotter.Extractor.Split.Supply.{process_entries-Supplied}
use mysnapshotter.Tests.Sorts.{by_insertion}

program : Unit {0}
unfolding parse_footer_frame parse_annotations parse_toc group_missing_files group_sorted text_dec
    parse_uint add64 sub64 process_entries filter_whiteout is_parent_whiteout base dir clean
program = tt

abbrev location : TocLocation
location = record {
  offset = 1000;
  length_compressed = 2;
  length_uncompressed = 300;
  digest = codes "sha256:0a";
}

parse_footer_frame-footer_frame_example :
    parse_footer_frame (footer_frame location 0 0 0 ++ (7 ∷ []))
    ≡ ok (record location { digest = [] })
parse_footer_frame-footer_frame_example =
    parse_footer_frame-footer_frame location 0 0 0 (7 ∷ []) (omega arith) (omega arith)
      (omega arith)

abbrev notes : Annotations
notes k =
    if k == manifest_info_key
    then some (codes "1000:2:300:1")
    else if k == manifest_checksum_key
    then some (codes "sha256:0a")
    else none

fields :
    (notes manifest_info_key ≡ some (codes "1000:2:300:1"))
    × (parse_uint (codes "1000") ≡ ok 1000)
    × (parse_uint (codes "2") ≡ ok 2)
    × (parse_uint (codes "300") ≡ ok 300)
    × (parse_uint (codes "1") ≡ ok 1)
unfolding program
fields = (refl, refl, refl, refl, refl)

parse_annotations-fields_example :
    parse_annotations notes
    ≡ ok (record {
      offset = 1000;
      length_compressed = 2;
      length_uncompressed = 300;
      digest = text_or_empty (notes manifest_checksum_key);
    })
parse_annotations-fields_example =
    parse_annotations-fields notes (codes "1000") (codes "2") (codes "300") (codes "1") fields.0
      fields.1 fields.2 fields.3 fields.4

abbrev empty_toc : Toc
empty_toc = record { version = pos 1; entries = []; tar_split_digest = [] }

-- A hash of one byte, and decoders that read anything.
abbrev codecs : Codecs
codecs = record {
  sha256 = λ bytes. 10 ∷ [];
  new_reader = none;
  decode_all = λ bytes. ok bytes;
  unmarshal_toc = λ bytes. ok empty_toc;
}

abbrev stream : List ℕ
stream = 5 ∷ 6 ∷ 7 ∷ []

opened : parse_toc codecs stream location ≡ ok empty_toc
unfolding program
opened = refl

parse_toc-ok_example :
    (location.length_compressed ≤ max_toc_size)
    × (location.length_uncompressed ≤ max_toc_size)
    × (location.length_compressed ≤ length stream)
    × ((location.digest ≡ [])
        ⊎ ((hex : Text) × (cut_prefix (codes "sha256:") location.digest ≡ some hex)
            × (hex_decode hex ≡ ok (codecs.sha256 (take location.length_compressed stream)))))
    × ((plain : List ℕ) × (codecs.decode_all (take location.length_compressed stream) ≡ ok plain)
        × (codecs.unmarshal_toc plain ≡ ok empty_toc))
parse_toc-ok_example = parse_toc-ok codecs stream location opened

abbrev pub metadata : Text → FileMetadata
metadata name = record {
  type = EntryType.reg;
  name = name;
  linkname = [];
  mode = pos 420;
  size = pos 10;
  uid = pos 0;
  gid = pos 0;
  mod_time = none;
  access_time = none;
  change_time = none;
  devmajor = pos 0;
  devminor = pos 0;
  xattrs = [];
  digest = codes "sha256:0a";
  offset = pos 0;
  end_offset = pos 0;
  chunk_size = pos 0;
  chunk_offset = pos 0;
  chunk_digest = [];
  chunk_type = [];
}

abbrev pub file : ℕ → ℕ → TocFile
file offset size = record {
  entry = metadata (codes "f");
  cached_paths = [];
  duplicates = [];
  range = record { offset = pos offset; size = pos size };
}

abbrev three : List TocFile
three = file 0 10 ∷ file 20 10 ∷ file 9_000_000 10 ∷ []

two_groups : map (λ g. g.size) (group_sorted three) ≡ pos 30 ∷ pos 10 ∷ []
unfolding program
two_groups = refl

three-AllPlaced : AllPlaced three
three-AllPlaced =
    ((refl, refl, omega arith), ((refl, refl, omega arith), ((refl, refl, omega arith), tt)))

group_sorted-IsChain_example : All IsChain (group_sorted three)
group_sorted-IsChain_example = group_sorted-IsChain three three-AllPlaced

group_missing_files-files_example :
    all_files (group_missing_files by_insertion (file 20 10 ∷ file 0 10 ∷ []))
    ≡ Sorter.sort by_insertion offset_less (file 20 10 ∷ file 0 10 ∷ [])
group_missing_files-files_example =
    group_missing_files-files by_insertion (file 20 10 ∷ file 0 10 ∷ [])

abbrev entry : Text → FileMetadata
entry name = record (metadata name) { end_offset = pos 10 }

-- Two files of one digest, and nothing on the disk: the first is fetched, with the second as its
-- duplicate.
abbrev pair : Split
pair =
    process_entries (λ n d. []) (start new_layer_ctx) (entry (codes "a") ∷ entry (codes "b") ∷ [])

pair_run : (pair.missing ≡ 0 ∷ []) × (map (λ f. f.duplicates) pair.files ≡ (1 ∷ []) ∷ (0 ∷ []) ∷ [])
unfolding program
pair_run = (refl, refl)

pair_second : 1 < length pair.files
unfolding program
pair_second = omega arith

process_entries-Supplied_example : Supplied pair 1
process_entries-Supplied_example =
    process_entries-Supplied (λ d. []) new_layer_ctx (entry (codes "a") ∷ entry (codes "b") ∷ []) 1
      pair_second
