-- ===== src/Extractor/Image/Framed.antt =====
-- What `ExtractImage` leaves in the file database of the other roots.
use mysnapshotter.Prelude.{
  ◌≡◌, refl, ◌∙◌, Bool, true, false, ◌&&◌, Option, none, some, List, [], ◌∷◌, arith, String, Text,
  ◌==◌, Error, Result, ok, err, reverse, by_if,
}
use mysnapshotter.FileDb.Buckets.{Bolt, IsLawful}
use mysnapshotter.FileDb.{
  Entry, paths_for_checksum, record_all_tx, record_all, remove_root_tx, remove_root, root_exists,
}
use mysnapshotter.FileDb.RecordAll.{record_all_tx-roots}
use mysnapshotter.FileDb.RemoveRoot.{remove_root_tx-roots}
use mysnapshotter.FileDb.Indexes.{indexes_same, record_all_tx-other, remove_root_tx-indexes}
use mysnapshotter.FileDb.Coherent.{leads_to, update-kept}
use mysnapshotter.Chunked.Data.{Toc}
use mysnapshotter.Store.Registry.{Descriptor, fetch_range}
use mysnapshotter.Extractor.System.{M, after, lift, named}
use mysnapshotter.Extractor.Maintaining.{IfOk}
use mysnapshotter.Extractor.Layer.{LayerCtx, new_layer_ctx}
use mysnapshotter.Extractor.Split.{ProcessedToc, process_toc}
use mysnapshotter.Extractor.Ranges.{group_missing_files}
use mysnapshotter.Extractor.Nodes.{create_structural_nodes, apply_dir_perm}
use mysnapshotter.Extractor.Contents.{apply_cached_files, fetch_and_apply_blob_ranges}
use mysnapshotter.Extractor.Image.{
  Env, World, Db, recorded, update_file_db, fetch_and_apply_delta_layer, fetch_and_apply_layer,
  extract_layer, layer_toc, Run, ran, extract_layers, linked, finish_links, clean_up,
  create_hard_links, extract_image,
}

bind-IfOk :
    {W A B : Type 0} {P : A → Type 0} (Q : B → Type 0) (x : Result A × W) (f : A → M W B)
    → IfOk P x.0
    → ((a : A) (w : W) → P a → IfOk Q (f a w).0)
    → IfOk Q (after x f).0
bind-IfOk Q (ok a, w) f p h = h a w p
bind-IfOk Q (err e, w) f p h = tt

then-IfOk :
    {W A B : Type 0} (Q : B → Type 0) (x : Result A × W) (f : A → M W B)
    → ((a : A) (w : W) → IfOk Q (f a w).0)
    → IfOk Q (after x f).0
then-IfOk Q (ok a, w) f h = h a w
then-IfOk Q (err e, w) f h = tt

named-IfOk :
    {W A : Type 0} (P : A → Type 0) (s : String) (r : Result A) (w : W)
    → IfOk P r
    → IfOk P (named s (lift r) w).0
named-IfOk P s (ok a) w p = p
named-IfOk P s (err e) w p = tt

-- Of an extraction into `root`: what holds of the database if the transactions for this root keep it.
module _ (E : Env) (root : Text) (P : Db E → Type 0)
    (record_keeps : (db : Db E) (es : List Entry) → P db → P (record_all E.bolt root es db).0)
    (remove_keeps : (db : Db E) → P db → P (remove_root E.bolt root db).0) where
  recorded-IfOk : (x : Db E × Option Error) → P x.0 → IfOk P (recorded E x)
  recorded-IfOk (x, none) p = p
  recorded-IfOk (x, some e) p = tt

  abbrev Keeps : Result (Db E × LayerCtx) × World E → Type 0
  Keeps x = IfOk (λ p. P p.0) x.0

  recorded_layer :
      (db : Db E) (t : ProcessedToc) (lc : LayerCtx) (w : World E)
      → P db
      → Keeps (
          after
            (named "updating cached files db" (lift (update_file_db E db root t)) w)
            (λ db' w'. (ok (db', lc), w')))
  unfolding update_file_db
  recorded_layer db t lc w p =
      bind-IfOk (λ q. P q.0)
        (named "updating cached files db" (lift (update_file_db E db root t)) w) _
        (named-IfOk P "updating cached files db" (update_file_db E db root t) w
          (recorded-IfOk (record_all E.bolt root _ db) (record_keeps db _ p)))
        (λ db' w' q. q)

  delta_layer-Keeps :
      (db : Db E) (toc : Toc) (desc : Descriptor) (lc : LayerCtx) (w : World E)
      → P db
      → Keeps (fetch_and_apply_delta_layer E root db toc desc lc w)
  unfolding fetch_and_apply_delta_layer update_file_db
  delta_layer-Keeps db toc desc lc w p =
      let Q : Db E × LayerCtx → Type 0 = λ q. P q.0 in
      let split =
        process_toc E.sort_entries (λ n digest. paths_for_checksum E.bolt db digest) toc.entries
          lc in
      let t = split.0 in
      then-IfOk Q
        (named "creating structural nodes"
          (create_structural_nodes E.os E.decode_base64 E.cwd root E.sort_entries t.structure
            split.1)
          w)
        _
        (λ dirs w1.
          then-IfOk Q
            (named "extracting specific missing ranges"
              (fetch_and_apply_blob_ranges E.os E.decode_base64 E.zstd t.table root
                (fetch_range E.fetcher desc) (group_missing_files E.sort_files t.missing_files))
              w1)
            _
            (λ _ w2.
              then-IfOk Q
                (named "applying cached files"
                  (apply_cached_files E.os E.decode_base64 root t.cached_files) w2)
                _
                (λ _ w3.
                  then-IfOk Q
                    (named "applying metadata to directories"
                      (apply_dir_perm E.os E.decode_base64 E.cwd root E.sort_entries dirs.0) w3)
                    _ (λ _ w4. recorded_layer db t dirs.1 w4 p))))

  layer-Keeps :
      (db : Db E) (lc : LayerCtx) (desc : Descriptor) (toc : Option Toc) (w : World E)
      → P db
      → Keeps (extract_layer E root db lc desc toc w)
  unfolding extract_layer
  layer-Keeps db lc desc none w p =
      then-IfOk (λ q. P q.0) (fetch_and_apply_layer E root desc lc w) _ (λ lc' w'. p)
  layer-Keeps db lc desc (some toc) w p = delta_layer-Keeps db toc desc lc w p

  ran_keeps :
      (db : Db E) (x : Result (Db E × LayerCtx) × World E) → P db → Keeps x → P (ran E db x).0.0
  ran_keeps db (ok (db', lc), w) p k = k
  ran_keeps db (err e, w) p k = p

  layers_keep :
      (delta : Bool) (ls : List Descriptor) (run : Run E)
      → P run.0.0
      → P (extract_layers E delta root ls run).0.0
  unfolding extract_layers
  layers_keep delta [] run p = p
  layers_keep delta (l ∷ ls) ((db, err e), w) p = p
  layers_keep delta (l ∷ ls) ((db, ok lc), w) p =
      let x = extract_layer E root db lc l (layer_toc E delta l) w in
      layers_keep delta ls (ran E db x)
        (ran_keeps db x p (layer-Keeps db lc l (layer_toc E delta l) w p))

  linked_keeps : (db : Db E) (x : Result (Unit {0}) × World E) → P db → P (linked E db x).0.0
  linked_keeps db (ok _, w) p = p
  linked_keeps db (err e, w) p = p

  links_keep : (run : Run E) → P run.0.0 → P (finish_links E run).0.0
  unfolding finish_links
  links_keep ((db, err e), w) p = p
  links_keep ((db, ok lc), w) p = linked_keeps db (create_hard_links E lc.hardlinks w) p

  clean_up_keeps :
      (delta : Bool) (x : Db E × Result (Unit {0})) → P x.0 → P (clean_up E delta root x).0
  unfolding clean_up
  clean_up_keeps delta (db, ok _) p = p
  clean_up_keeps false (db, err e) p = p
  clean_up_keeps true (db, err e) p = remove_keeps db p

  extract_image_keeps :
      (delta : Bool) (layers : List Descriptor) (db : Db E) (w : World E)
      → P db
      → P (extract_image E delta root layers db w).0.0
  unfolding extract_image
  extract_image_keeps delta layers db w p =
      by_if (λ (x : (Db E × Result (Unit {0})) × World E). P x.0.0)
        (delta && root_exists E.bolt db root) p
        (clean_up_keeps delta _
          (links_keep _ (layers_keep delta (reverse layers) ((db, ok new_layer_ctx), w) p)))

-- The root is tracked in both databases or in neither, and its indexes lead to the same paths.
abbrev pub IsSameAt : (B : Bolt) → Text → Bolt.Tx B → Bolt.Tx B → Type 0
IsSameAt B r x y =
    (root_exists B y r ≡ root_exists B x r)
    × ((d p : Text) → leads_to B y r d p ≡ leads_to B x r d p)

module _ (B : Bolt) (L : IsLawful B) (root r : Text) (other : (root == r) ≡ false) where
  record_all-SameAt :
      (x db : Bolt.Tx B) (es : List Entry)
      → IsSameAt B r x db
      → IsSameAt B r x (record_all B root es db).0
  unfolding record_all
  record_all-SameAt x db es (t, s) =
      update-kept B (IsSameAt B r x) db (record_all_tx B root es) (t, s)
        (λ y h. (
          ground (arith, record_all_tx-roots B L root db es r h),
          λ d p.
              indexes_same B L db y r d p (λ j. record_all_tx-other B L root db es r j other h)
              ∙ s d p,
        ))

  remove_root-SameAt :
      (x db : Bolt.Tx B) → IsSameAt B r x db → IsSameAt B r x (remove_root B root db).0
  unfolding remove_root
  remove_root-SameAt x db (t, s) =
      update-kept B (IsSameAt B r x) db (remove_root_tx B root) (t, s)
        (λ y h. (
          ground (arith, remove_root_tx-roots B L root db r h),
          λ d p. ground (arith, remove_root_tx-indexes B L root db r d p h, s d p),
        ))

-- An extraction, whatever layers it gets and whether it succeeds or fails, leaves any other root
-- tracked or untracked as it was, and its index leads to the same paths.
pub extract_image-SameAt :
    (E : Env)
    → IsLawful E.bolt
    → (delta : Bool) (root r : Text) (layers : List Descriptor) (db : Db E) (w : World E)
    → (root == r) ≡ false
    → IsSameAt E.bolt r db (extract_image E delta root layers db w).0.0
extract_image-SameAt E L delta root r layers db w other =
    extract_image_keeps E root (IsSameAt E.bolt r db) (record_all-SameAt E.bolt L root r other db)
      (remove_root-SameAt E.bolt L root r other db) delta layers db w (refl, λ d p. refl)
