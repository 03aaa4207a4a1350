-- ===== src/Extractor/Split.antt =====
-- `processTOC` of pkg/extractor/toc_process.go: a table of contents is split into files to fetch, files
-- to copy and structural nodes.
pub mod Kept
pub mod Twins
pub mod Supply
use mysnapshotter.Prelude.{
  ℕ, zero, suc, Bool, true, false, ◌&&◌, ◌||◌, not, Option, none, some, List, [], ◌∷◌, ◌++◌, map,
  eqb, if◌then◌else◌, length, get_elem?, Text, ◌==◌,
}
use mysnapshotter.Prelude.Int.{ℤ, pos}
use mysnapshotter.Prelude.Int64.{sub64, leb_ℤ}
use mysnapshotter.Prelude.Sorting.{Sorter}
use mysnapshotter.Paths.{clean}
use mysnapshotter.Chunked.Data.{EntryType, FileMetadata}
use mysnapshotter.FileDb.{Entry}
use mysnapshotter.Extractor.Files.{TocFile}
use mysnapshotter.Extractor.Layer.{
  LayerCtx, mark, apply_opaques, filter_whiteout, is_parent_whiteout,
}

-- The variables of the loop. `files` are all files made, and a pointer to one is its place there;
-- `digests` lists the places of the files with a digest.
pub record Split : Type 0 where
  pub files : List TocFile
  pub missing : List ℕ
  pub cached : List ℕ
  pub structure : List FileMetadata
  pub digests : Text → List ℕ
  pub ctx : LayerCtx

-- `processedTOC`.
pub record ProcessedToc : Type 0 where
  pub missing_files : List TocFile
  pub cached_files : List TocFile
  pub structure : List FileMetadata
  pub table : List TocFile

-- `(*tocFile).Digest` and `RelPaths`, over the table that the duplicates point into.
abbrev pub duplicate_name : Option TocFile → Text
duplicate_name none = []
duplicate_name (some dup) = dup.entry.name

unfoldable pub rel_paths : List TocFile → TocFile → List Text
rel_paths table f = f.entry.name ∷ map (λ i. duplicate_name (get_elem? table i)) f.duplicates

abbrev pub to_entry : List TocFile → TocFile → Entry
to_entry table f = record { digest = f.entry.digest; rel_paths = rel_paths table f }

abbrev pub append_duplicate : ℕ → TocFile → TocFile
append_duplicate i f = record f { duplicates = f.duplicates ++ (i ∷ []) }

-- `e.Duplicates = append(e.Duplicates, tf)` for the file at one place.
unfoldable pub add_duplicate : ℕ → List TocFile → ℕ → List TocFile
add_duplicate i [] j = []
add_duplicate i (f ∷ fs) zero = append_duplicate i f ∷ fs
add_duplicate i (f ∷ fs) (suc j) = f ∷ add_duplicate i fs j

unfoldable pub add_duplicates : ℕ → List TocFile → List ℕ → List TocFile
unfolding add_duplicate
add_duplicates i fs [] = fs
add_duplicates i fs (j ∷ js) = add_duplicates i (add_duplicate i fs j) js

abbrev pub is_nil {ℓ} : {A : Type ℓ} → List A → Bool
is_nil [] = true
is_nil (_ ∷ _) = false

-- A regular file with contents; `paths` is what the file database gave for its digest, and `refs`
-- the files of that digest so far. The lists are separate here. In the source the slices of one digest
-- share their array, so that from the fifth file on an append to the duplicates of one file changes
-- those of another; the first file of a digest has an array of its own.
unfoldable pub add_twin : Split → FileMetadata → List Text → List ℕ → Split
unfolding add_duplicates
add_twin s entry paths refs =
    let id = length s.files in
    let twin = not (is_nil refs) && is_nil paths in
    let file : TocFile = record {
      entry = entry;
      cached_paths = paths;
      duplicates = if twin then refs else [];
      range = record { offset = entry.offset; size = sub64 entry.end_offset entry.offset };
    } in
    record s {
      files = (if twin then add_duplicates id s.files refs else s.files) ++ (file ∷ []);
      digests = λ d. if entry.digest == d then refs ++ (id ∷ []) else s.digests d;
      cached = if is_nil paths then s.cached else s.cached ++ (id ∷ []);
      missing = if is_nil paths && not twin then s.missing ++ (id ∷ []) else s.missing;
    }

unfoldable pub add_file : Split → FileMetadata → List Text → Split
unfolding add_twin
add_file s entry paths = add_twin s entry paths (s.digests entry.digest)

abbrev pub add_structure : Split → FileMetadata → Split
add_structure s entry = record s { structure = s.structure ++ (entry ∷ []) }

abbrev pub is_zero : ℤ → Bool
is_zero (pos n) = eqb n 0
is_zero _ = false

-- The switch on the entry's type. The database answers for the n-th file that is asked for.
unfoldable pub place : (ℕ → Text → List Text) → Split → FileMetadata → EntryType → Split
unfolding add_file
place query s entry EntryType.reg =
    if is_zero entry.size || entry.digest == []
    then add_structure s entry
    else add_file s entry (query (length s.files) entry.digest)
place query s entry EntryType.chunk = s
place query s entry (EntryType.other _) = s
place query s entry _ = add_structure s entry

abbrev pub is_chunk : EntryType → Bool
is_chunk EntryType.chunk = true
is_chunk _ = false

-- One round of the loop.
unfoldable pub process_entry : (ℕ → Text → List Text) → Split → FileMetadata → Split
unfolding place filter_whiteout is_parent_whiteout
process_entry query s entry =
    let path = clean entry.name in
    let (lc, whiteout) = filter_whiteout s.ctx path in
    if is_chunk entry.type
    then s
    else if whiteout || is_parent_whiteout lc.whiteouts path
    then record s { ctx = lc }
    else if lc.seen_paths path
    then record s { ctx = lc }
    else place query (record s { ctx = record lc { seen_paths = mark path lc.seen_paths } }) entry
        entry.type

unfoldable pub process_entries : (ℕ → Text → List Text) → Split → List FileMetadata → Split
unfolding process_entry
process_entries query s [] = s
process_entries query s (e ∷ es) = process_entries query (process_entry query s e) es

abbrev pub start : LayerCtx → Split
start lc = record {
  files = [];
  missing = [];
  cached = [];
  structure = [];
  digests = λ d. [];
  ctx = lc;
}

-- The files at these places.
unfoldable pub deref : List TocFile → List ℕ → List TocFile
deref table [] = []
deref table (i ∷ is) =
    let rest = deref table is in elim (get_elem? table i) [ none ↦ rest | some f ↦ f ∷ rest ]

abbrev pub entry_offset_less : FileMetadata → FileMetadata → Bool
entry_offset_less a b = not (leb_ℤ b.offset a.offset)

-- `processTOC`: what it returns, and the context afterwards.
unfoldable pub process_toc :
    Sorter FileMetadata
    → (ℕ → Text → List Text)
    → List FileMetadata
    → LayerCtx
    → ProcessedToc × LayerCtx
unfolding process_entries deref apply_opaques
process_toc sorter query entries lc =
    let s = process_entries query (start lc) (sorter.sort entry_offset_less entries) in
    (
      record {
        missing_files = deref s.files s.missing;
        cached_files = deref s.files s.cached;
        structure = s.structure;
        table = s.files;
      },
      apply_opaques s.ctx,
    )
