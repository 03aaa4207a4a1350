-- ===== src/Extractor/Confined/Layers.antt =====
-- The paths of the calls of a delta layer.
use mysnapshotter.Prelude.{
  by_if, Bool, [], ◌∷◌, All, All-append, ◌≡◌, refl, sym, true, ◌||◌, ◌==◌, Text, Result, ok, err,
  context, >>=-eq-ok, context-eq-ok,
}
use mathlib.Core.Path.{subst}
use mysnapshotter.Paths.{dot, slash, is_abs, join, clean}
use mysnapshotter.Paths.Below.{IsClimbless, IsBelow, join-IsBelow, join-is_abs}
use mysnapshotter.Chunked.Data.{Toc}
use mysnapshotter.FileDb.{paths_for_checksum}
use mysnapshotter.Store.Registry.{Descriptor, fetch_range}
use mysnapshotter.Extractor.Layer.{
  LayerCtx, Header, mark, ensure_safe_path, filter_whiteout, defer_link, deferred, filter_unseen,
  filter_func,
}
use mysnapshotter.Extractor.Layer.Safety.{ensure_safe_path_iff}
use mysnapshotter.Extractor.Layer.Links.{ok_inj, filter_whiteout-hardlinks}
use mysnapshotter.Extractor.Split.{process_toc}
use mysnapshotter.Extractor.Maintaining.{
  Whatever, Maintains, pure-Maintains, lift-Maintains, then-Maintains, bind-Maintains,
  named-Maintains,
}
use mysnapshotter.Extractor.Image.{Env, World, Db, update_file_db, fetch_and_apply_delta_layer}
use mysnapshotter.Extractor.Confined.{IsNamed, IsInside, Respects, any_ok}
use mysnapshotter.Extractor.Confined.Nodes.{
  IsGathered, create_structural_nodes-Maintains, apply_dir_perm-Maintains,
}
use mysnapshotter.Extractor.Confined.Contents.{apply_cached_files-Maintains}
use mysnapshotter.Extractor.Confined.Blobs.{fetch_and_apply_blob_ranges-Maintains}
use mysnapshotter.Extractor.Confined.Splitting.{IsNamedToc, process_toc-IsNamedToc}

module _ (E : Env) (root : Text) (I : World E → Type 0) (H : Respects E.os root I)
    (rooted : is_abs root ≡ true) where
  -- The deferred links of a context lie in the destination.
  abbrev pub IsLinked : LayerCtx → Type 0
  IsLinked lc = All (IsInside root) lc.hardlinks

  -- A delta layer whose names do not climb keeps an invariant that the calls confined to the destination
  -- keep, also where it fails.
  pub fetch_and_apply_delta_layer-Maintains :
      (db : Db E) (toc : Toc) (desc : Descriptor) (lc : LayerCtx)
      → All IsNamed toc.entries
      → IsLinked lc
      → Maintains I (λ r. IsLinked r.1) (fetch_and_apply_delta_layer E root db toc desc lc)
  unfolding fetch_and_apply_delta_layer
  fetch_and_apply_delta_layer-Maintains db toc desc lc c a =
      let x =
        process_toc E.sort_entries (λ n digest. paths_for_checksum E.bolt db digest) toc.entries
          lc in
      let t : IsNamedToc lc.hardlinks x =
        process_toc-IsNamedToc E.sort_entries (λ n digest. paths_for_checksum E.bolt db digest)
          toc.entries lc c in
      bind-Maintains I (IsGathered E.os E.decode_base64 root I H)
        (named-Maintains I "creating structural nodes" (
          create_structural_nodes-Maintains E.os E.decode_base64 root I H E.cwd rooted
            E.sort_entries x.0.structure x.1 t.structure
            (subst (All (IsInside root)) (sym t.links_eq) a)))
        (λ g q.
          then-Maintains I
            (named-Maintains I "extracting specific missing ranges" (
              fetch_and_apply_blob_ranges-Maintains E.os E.decode_base64 root I H rooted E.zstd
                x.0.table t.table E.sort_files (fetch_range E.fetcher desc) x.0.missing_files
                t.missing))
            (then-Maintains I
              (named-Maintains I "applying cached files" (
                apply_cached_files-Maintains E.os E.decode_base64 root I H rooted x.0.cached_files
                  t.cached))
              (then-Maintains I
                (named-Maintains I "applying metadata to directories" (
                  apply_dir_perm-Maintains E.os E.decode_base64 root I H E.cwd rooted E.sort_entries
                    g.0 q.0))
                (bind-Maintains I Whatever
                  (named-Maintains I "updating cached files db"
                    (lift-Maintains I (update_file_db E db root x.0) (any_ok _)))
                  (λ db' _. pure-Maintains I (db', g.1) q.1)))))

  defer_link-IsLinked :
      (lc : LayerCtx) (name linkname : Text) (r : Result LayerCtx)
      → defer_link E.cwd root lc (join root name) linkname ≡ r
      → IsClimbless name
      → IsLinked lc
      → IsLinked (deferred lc r).0
  unfolding defer_link
  defer_link-IsLinked lc name linkname (err e) h c a = a
  defer_link-IsLinked lc name linkname (ok after) h c a =
      let (_, safe, e) =
        >>=-eq-ok
          (context "illegal hardlink target" (ensure_safe_path E.cwd root (join root linkname))) _
          h in
      let old : IsBelow root (join root linkname) =
        (ensure_safe_path_iff E.cwd root _ rooted (join-is_abs root linkname rooted)).0
          (context-eq-ok _ _ safe) in
      subst IsLinked (ok_inj e) (
        All-append (IsInside root) lc.hardlinks (_ ∷ []) a
          ((old, join-IsBelow root name rooted c), tt))

  -- The filter of a regular layer defers only links in the destination.
  pub filter_func-IsLinked :
      (lc : LayerCtx) (hdr : Header)
      → IsClimbless (clean hdr.name)
      → IsLinked lc
      → IsLinked (filter_func E.cwd root lc hdr).0
  unfolding filter_func filter_unseen
  filter_func-IsLinked lc hdr c a =
      let path : Text = clean hdr.name in
      let lc' : LayerCtx = (filter_whiteout lc path).0 in
      let a' : IsLinked lc' =
        subst (All (IsInside root)) (sym (filter_whiteout-hardlinks lc path)) a in
      let marked : LayerCtx = record lc' { seen_paths = mark path lc'.seen_paths } in
      let P : LayerCtx × Result Bool → Type 0 = λ r. IsLinked r.0 in
      by_if P (path == dot || path == (slash ∷ [])) a (
        by_if P _ a' (
          by_if P (lc'.seen_paths path) a'
            (by_if P hdr.is_link (defer_link-IsLinked marked path hdr.linkname _ refl c a') a')))
