-- ===== src/Extractor/Image.antt =====
-- `updateFileDB` and `fetchAndApplyDeltaLayer` of pkg/extractor/chunked_extraction.go, and `ExtractImage`
-- of pkg/extractor/extractor.go from the layers on.
pub mod Rollback
pub mod Framed
pub mod Regular
use mysnapshotter.Prelude.{
  ℕ, Bool, true, false, ◌&&◌, Option, none, some, List, [], ◌∷◌, ◌++◌, map, reverse, if◌then◌else◌,
  Text, Error, message, wrap, Result, ok, err,
}
use mysnapshotter.Prelude.Sorting.{Sorter}
use mysnapshotter.Chunked.Data.{FileMetadata, Toc}
use mysnapshotter.Chunked.Toc.{Codecs}
use mysnapshotter.FileDb.Buckets.{Bolt}
use mysnapshotter.FileDb.{record_all, remove_root, root_exists, paths_for_checksum}
use mysnapshotter.Store.Registry.{Descriptor, Fetcher, fetch_range, fetch_toc}
use mysnapshotter.Extractor.Files.{TocFile}
use mysnapshotter.Extractor.Ranges.{group_missing_files}
use mysnapshotter.Extractor.Layer.{
  Hardlink, LayerCtx, Header, new_layer_ctx, apply_opaques, filter_func,
}
use mysnapshotter.Extractor.Split.{ProcessedToc, to_entry, process_toc}
use mysnapshotter.Extractor.System.{
  Syscall, Os, M, pure, fail, ◌>>=◌, ◌>>◌, lift, named, attempt, for_each, issue,
}
use mysnapshotter.Extractor.Nodes.{create_structural_nodes, apply_dir_perm}
use mysnapshotter.Extractor.Contents.{Zstd, apply_cached_files, fetch_and_apply_blob_ranges}

-- What the extraction calls and does not implement: the system, the file database's store, the
-- registry's fetcher, the decoders, sorting, the working directory, and for a regular layer the
-- headers of its tar stream and containerd's extraction of one entry.
pub record Env : Type 1 where
  pub os : Os
  pub bolt : Bolt
  pub fetcher : Fetcher
  pub codecs : Codecs
  pub zstd : Zstd
  pub decode_base64 : Text → Result (List ℕ)
  pub sort_entries : Sorter FileMetadata
  pub sort_files : Sorter TocFile
  pub cwd : Result Text
  pub headers : Descriptor → Result (List Header)
  pub extract_entry : Header → Os.World os → Result (Unit {0}) × Os.World os

module _ (E : Env) where
  abbrev pub World : Type 0
  World = Os.World E.os

  abbrev pub Db : Type 0
  Db = Bolt.Tx E.bolt

  abbrev pub recorded : {A : Type 0} → A × Option Error → Result A
  recorded (x, none) = ok x
  recorded (x, some e) = err e

  -- `updateFileDB`: the cached files and then the missing ones.
  unfoldable pub update_file_db : Db → Text → ProcessedToc → Result Db
  unfolding record_all
  update_file_db db root p =
      recorded
        (record_all E.bolt root (map (to_entry p.table) (p.cached_files ++ p.missing_files)) db)

  -- `fetchAndApplyDeltaLayer`.
  unfoldable pub fetch_and_apply_delta_layer :
      Text → Db → Toc → Descriptor → LayerCtx → M World (Db × LayerCtx)
  unfolding process_toc create_structural_nodes fetch_and_apply_blob_ranges apply_cached_files
      apply_dir_perm update_file_db
  fetch_and_apply_delta_layer destination db toc desc lc = do
    let (p, lc1) =
        process_toc E.sort_entries (λ n digest. paths_for_checksum E.bolt db digest) toc.entries lc
    (dirs, lc2) ← named "creating structural nodes" (
        create_structural_nodes E.os E.decode_base64 E.cwd destination E.sort_entries p.structure
          lc1)
    named "extracting specific missing ranges" (
        fetch_and_apply_blob_ranges E.os E.decode_base64 E.zstd p.table destination
          (fetch_range E.fetcher desc) (group_missing_files E.sort_files p.missing_files))
    named "applying cached files"
        (apply_cached_files E.os E.decode_base64 destination p.cached_files)
    named "applying metadata to directories"
        (apply_dir_perm E.os E.decode_base64 E.cwd destination E.sort_entries dirs)
    db' ← named "updating cached files db" (lift (update_file_db db destination p))
    pure (db', lc2)

  -- One header of a regular layer: the filter, and the extraction of what passes.
  unfoldable pub apply_header : Text → LayerCtx → Header → M World LayerCtx
  unfolding filter_func
  apply_header destination lc hdr = do
    let (lc', verdict) = filter_func E.cwd destination lc hdr
    accepted ← lift verdict
    (if accepted then E.extract_entry hdr else pure tt)
    pure lc'

  unfoldable pub apply_headers : Text → LayerCtx → List Header → M World LayerCtx
  unfolding apply_header
  apply_headers destination lc [] = pure lc
  apply_headers destination lc (h ∷ hs) = do
    lc' ← apply_header destination lc h
    apply_headers destination lc' hs

  -- `fetchAndApplyLayer`.
  unfoldable pub fetch_and_apply_layer : Text → Descriptor → LayerCtx → M World LayerCtx
  unfolding apply_headers apply_opaques
  fetch_and_apply_layer destination desc lc = do
    hdrs ← named "failed to fetch layer" (lift (E.headers desc))
    lc' ← named "failed to apply layer" (apply_headers destination lc hdrs)
    pure (apply_opaques lc')

  -- `createHardLinks`, one link: an existing file is replaced.
  unfoldable pub create_hard_link : Hardlink → M World (Unit {0})
  create_hard_link l = do
    r ← attempt (issue E.os (Syscall.link l.old l.new))
    (elim r [
      | ok _ ↦ pure tt
      | err e ↦
          if Os.is_exist E.os e
          then (do
            attempt (issue E.os (Syscall.remove l.new))
            named "creating hardlink" (issue E.os (Syscall.link l.old l.new))
            pure tt)
          else fail (wrap "creating hardlink" e)
    ])

  unfoldable pub create_hard_links : List Hardlink → M World (Unit {0})
  unfolding create_hard_link for_each
  create_hard_links links = for_each links create_hard_link

  -- The table of contents of a layer, if a delta is wanted and it can be read.
  unfoldable pub layer_toc : Bool → Descriptor → Option Toc
  unfolding fetch_toc
  layer_toc false desc = none
  layer_toc true desc = elim (fetch_toc E.fetcher E.codecs desc) [
    | ok toc ↦ some toc
    | err _ ↦ none
  ]

  -- One layer. The database changes only with its own last step.
  unfoldable pub extract_layer :
      Text → Db → LayerCtx → Descriptor → Option Toc → M World (Db × LayerCtx)
  unfolding fetch_and_apply_layer fetch_and_apply_delta_layer
  extract_layer destination db lc desc none = do
    lc' ← fetch_and_apply_layer destination desc lc
    pure (db, lc')
  extract_layer destination db lc desc (some toc) =
      fetch_and_apply_delta_layer destination db toc desc lc

  -- What a run leaves, in case of an error too: the database so far with the verdict.
  abbrev pub Run : Type 0
  Run = (Db × Result LayerCtx) × World

  abbrev pub ran : Db → Result (Db × LayerCtx) × World → Run
  ran db (ok (db', lc), w) = ((db', ok lc), w)
  ran db (err e, w) = ((db, err e), w)

  -- The loop over the layers, from the last to the first.
  unfoldable pub extract_layers : Bool → Text → List Descriptor → Run → Run
  unfolding extract_layer layer_toc
  extract_layers delta destination [] run = run
  extract_layers delta destination (l ∷ ls) ((db, err e), w) = ((db, err e), w)
  extract_layers delta destination (l ∷ ls) ((db, ok lc), w) =
      extract_layers delta destination ls
        (ran db (extract_layer destination db lc l (layer_toc delta l) w))

  abbrev pub linked : Db → Result (Unit {0}) × World → (Db × Result (Unit {0})) × World
  linked db (ok _, w) = ((db, ok tt), w)
  linked db (err e, w) = ((db, err (wrap "creating deferred hardlinks" e)), w)

  unfoldable pub finish_links : Run → (Db × Result (Unit {0})) × World
  unfolding create_hard_links
  finish_links ((db, err e), w) = ((db, err e), w)
  finish_links ((db, ok lc), w) = linked db (create_hard_links lc.hardlinks w)

  -- The deferred function: after an error the records of the destination are removed. Of the two
  -- errors that are joined the first one stands for both.
  unfoldable pub clean_up : Bool → Text → Db × Result (Unit {0}) → Db × Result (Unit {0})
  unfolding remove_root
  clean_up delta destination (db, ok _) = (db, ok tt)
  clean_up false destination (db, err e) = (db, err e)
  clean_up true destination (db, err e) = ((remove_root E.bolt destination db).0, err e)

  abbrev pub cleaned :
      Bool → Text → (Db × Result (Unit {0})) × World → (Db × Result (Unit {0})) × World
  cleaned delta destination (r, w) = (clean_up delta destination r, w)

  -- `ExtractImage` once the manifest is known and the database open: a delta into a root that is
  -- tracked already is refused before anything is done.
  unfoldable pub extract_image :
      Bool → Text → List Descriptor → Db → World → (Db × Result (Unit {0})) × World
  unfolding extract_layers finish_links clean_up root_exists
  extract_image delta destination layers db w =
      if delta && root_exists E.bolt db destination
      then ((db, err (message "cannot extract data to an already cached root")), w)
      else cleaned delta destination (
          finish_links
            (extract_layers delta destination (reverse layers) ((db, ok new_layer_ctx), w)))
