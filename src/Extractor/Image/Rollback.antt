-- ===== src/Extractor/Image/Rollback.antt =====
-- What `ExtractImage` leaves in the file database after an error.
use mysnapshotter.Prelude.{
  ◌≡◌, refl, sym, ap, ◌∙◌, true, false, none, List, arith, Text, Error, Result, ok, err, reverse,
  ==_refl,
}
use mysnapshotter.FileDb.Buckets.{Bolt, IsLawful}
use mysnapshotter.FileDb.{update, remove_root, remove_root_tx, root_exists}
use mysnapshotter.FileDb.RemoveRoot.{remove_root_tx-total, remove_root_tx-roots}
use mysnapshotter.Store.Registry.{Descriptor}
use mysnapshotter.Extractor.Layer.{new_layer_ctx}
use mysnapshotter.Extractor.Image.{
  Env, World, Db, cleaned, clean_up, finish_links, extract_layers, extract_image,
}

module _ (E : Env) where
  update-ok :
      (f : Db E → Result (Db E)) (x y : Db E)
      → f x ≡ ok y
      → Bolt.commit E.bolt y ≡ none
      → update E.bolt f x ≡ (y, none)
  unfolding update
  update-ok f x y h c = ground arith

  remove_root-update :
      (root : Text) (db : Db E)
      → remove_root E.bolt root db ≡ update E.bolt (remove_root_tx E.bolt root) db
  unfolding remove_root
  remove_root-update root db = refl

  remove_root-untracked :
      IsLawful E.bolt
      → ((x : Db E) → Bolt.commit E.bolt x ≡ none)
      → (root : Text) (db : Db E) → root_exists E.bolt (remove_root E.bolt root db).0 root ≡ false
  remove_root-untracked L safe root db =
      let (y, h) = remove_root_tx-total E.bolt L root db in
      ap (λ r. root_exists E.bolt r.0 root)
        (remove_root-update root db ∙ update-ok (remove_root_tx E.bolt root) db y h (safe y))
      ∙ remove_root_tx-roots E.bolt L root db root h
      ∙ rw (==_refl root) refl

  clean_up-untracked :
      IsLawful E.bolt
      → ((x : Db E) → Bolt.commit E.bolt x ≡ none)
      → (root : Text) (db : Db E) (r : Result (Unit {0})) {e : Error}
      → (clean_up E true root (db, r)).1 ≡ err e
      → root_exists E.bolt (clean_up E true root (db, r)).0 root ≡ false
  unfolding clean_up
  clean_up-untracked L safe root db (ok _) h = absurd (cc)
  clean_up-untracked L safe root db (err _) h = remove_root-untracked L safe root db

  abbrev finished : Text → List Descriptor → Db E → World E → (Db E × Result (Unit {0})) × World E
  finished destination layers db w =
      finish_links E
        (extract_layers E true destination (reverse layers) ((db, ok new_layer_ctx), w))

  extract_image-finished :
      (destination : Text) (layers : List Descriptor) (db : Db E) (w : World E)
      → root_exists E.bolt db destination ≡ false
      → extract_image E true destination layers db w
        ≡ cleaned E true destination (finished destination layers db w)
  unfolding extract_image
  extract_image-finished destination layers db w new = rw new refl

  -- If a delta extraction into a root that was not tracked ends in an error, the root is not
  -- tracked afterwards either, whatever layers were recorded before the error, if the database
  -- can commit.
  pub extract_image-untracked :
      IsLawful E.bolt
      → ((x : Db E) → Bolt.commit E.bolt x ≡ none)
      → (destination : Text) (layers : List Descriptor) (db : Db E) (w : World E) {e : Error}
      → root_exists E.bolt db destination ≡ false
      → (extract_image E true destination layers db w).0.1 ≡ err e
      → root_exists E.bolt (extract_image E true destination layers db w).0.0 destination ≡ false
  extract_image-untracked L safe destination layers db w new h =
      let run = finished destination layers db w in
      let eq = extract_image-finished destination layers db w new in
      ap (λ r. root_exists E.bolt r.0.0 destination) eq
      ∙ clean_up-untracked L safe destination run.0.0 run.0.1 (ap (λ r. r.0.1) (sym eq) ∙ h)
