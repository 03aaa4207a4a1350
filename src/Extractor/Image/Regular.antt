-- ===== src/Extractor/Image/Regular.antt =====
-- `ExtractImage` without delta: the file database.
use mysnapshotter.Prelude.{◌≡◌, refl, ◌∙◌, false, List, [], ◌∷◌, Text, Result, ok, err, reverse}
use mysnapshotter.Store.Registry.{Descriptor}
use mysnapshotter.Extractor.Layer.{LayerCtx, new_layer_ctx}
use mysnapshotter.Extractor.System.{after, pure}
use mysnapshotter.Extractor.Image.{
  Env, World, Db, Run, ran, linked, clean_up, finish_links, layer_toc, extract_layer,
  extract_layers, extract_image, fetch_and_apply_layer, create_hard_links,
}

module _ (E : Env) where
  ran-db :
      (db : Db E) (r : Result LayerCtx × World E)
      → (ran E db (after r (λ lc. pure (db, lc)))).0.0 ≡ db
  ran-db db (ok lc, w) = refl
  ran-db db (err e, w) = refl

  extract_layer-db :
      (destination : Text) (db : Db E) (lc : LayerCtx) (desc : Descriptor) (w : World E)
      → (ran E db (extract_layer E destination db lc desc (layer_toc E false desc) w)).0.0 ≡ db
  unfolding extract_layer layer_toc
  extract_layer-db destination db lc desc w =
      ran-db db (fetch_and_apply_layer E destination desc lc w)

  extract_layers-db :
      (destination : Text) (layers : List Descriptor) (run : Run E)
      → (extract_layers E false destination layers run).0.0 ≡ run.0.0
  unfolding extract_layers
  extract_layers-db destination [] run = refl
  extract_layers-db destination (l ∷ ls) ((db, err e), w) = refl
  extract_layers-db destination (l ∷ ls) ((db, ok lc), w) =
      extract_layers-db destination ls
        (ran E db (extract_layer E destination db lc l (layer_toc E false l) w))
      ∙ extract_layer-db destination db lc l w

  linked-db : (db : Db E) (r : Result (Unit {0}) × World E) → (linked E db r).0.0 ≡ db
  linked-db db (ok _, w) = refl
  linked-db db (err e, w) = refl

  finish_links-db : (run : Run E) → (finish_links E run).0.0 ≡ run.0.0
  unfolding finish_links
  finish_links-db ((db, err e), w) = refl
  finish_links-db ((db, ok lc), w) = linked-db db (create_hard_links E lc.hardlinks w)

  clean_up-db :
      (destination : Text) (db : Db E) (r : Result (Unit {0}))
      → (clean_up E false destination (db, r)).0 ≡ db
  unfolding clean_up
  clean_up-db destination db (ok _) = refl
  clean_up-db destination db (err e) = refl

  -- Without delta the file database is left as it was, whether the extraction succeeds or not.
  pub extract_image-regular :
      (destination : Text) (layers : List Descriptor) (db : Db E) (w : World E)
      → (extract_image E false destination layers db w).0.0 ≡ db
  unfolding extract_image
  extract_image-regular destination layers db w =
      let start : Run E = ((db, ok new_layer_ctx), w) in
      let run = extract_layers E false destination (reverse layers) start in
      let end = finish_links E run in
      clean_up-db destination end.0.0 end.0.1
      ∙ finish_links-db run
      ∙ extract_layers-db destination (reverse layers) start
