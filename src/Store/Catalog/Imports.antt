-- ===== src/Store/Catalog/Imports.antt =====
-- `importFunc` of pkg/ocistore/import.go, as operations on a map: what it returns is what the image store
-- holds.
use mysnapshotter.Prelude.{
  Bool, true, false, Option, none, some, List, [], ◌∷◌, ◌≡◌, refl, ◌∙◌, if◌then◌else◌, ◌==◌, Error,
  message, Result, ok, err, is_not_found, ◌&&◌,
}
use mysnapshotter.Extractor.System.{M, pure, fail, after, ◌>>=◌, lift, attempt}
use mysnapshotter.Store.Registry.{Descriptor}
use mysnapshotter.Store.Containerd.{Containerd, Image}
use mysnapshotter.Store.Content.{ContentStore, Json}
use mysnapshotter.Store.Options.{ApplyCommitOpt, apply_options}
use mysnapshotter.Store.Views.{Keeps, bind-Keeps, settled-Keeps, if-Keeps}
use mysnapshotter.Store.Unpacking.{Unpacker, unpack}
use mysnapshotter.Store.Archives.{Archive, ImportConfig, ImportOpt, no_import_opts}
use mysnapshotter.Store.Storing.{put_images}
use mysnapshotter.Store.Importing.{
  import_decode_index, image_named, import_children, collected, beside, import_handler,
  import_images, put_fields, labelled, unpack_images, import_func,
}
use mysnapshotter.Store.Catalog.{Records, Catalog}
use mysnapshotter.Store.Catalog.Unpacks.{IsUnpacking, unpack-Keeps}
use mysnapshotter.Store.Catalog.Holding.{set_all, Holds, bind-Holds, pass-Holds, put_images-Holds}

-- The images that are returned.
abbrev pub stored_of : List Image × Option Error → List Image
stored_of q = q.0

-- The content store, the archive and the unpacker leave the image records alone, if the handler of a walk
-- does.
pub record IsImporting (C : Containerd) (L : Catalog C) (S : ContentStore C.World)
    (A : Archive C.World) (U : Unpacker C) : Type 0 where
  pub read_blob-Keeps : (d : Descriptor) → Keeps (Catalog.view L) (S.read_blob d)
  pub children-Keeps : (d : Descriptor) → Keeps (Catalog.view L) (A.children d)
  pub import_index-Keeps : (b : Bool) (r : A.Reader) → Keeps (Catalog.view L) (A.import_index b r)
  pub walk-Keeps :
      (m : A.Matcher) (r : Option A.Referrers) (b : Bool)
      (h : Descriptor → M (C.World × List Image) (List Descriptor))
      → ((d : Descriptor) → Keeps (λ s. Catalog.view L s.0) (h d))
      → (d : Descriptor) → Keeps (λ s. Catalog.view L s.0) (A.walk_not_empty m r b h d)
  pub unpacks : IsUnpacking C L U

module _ (C : Containerd) (initiated : Bool) (L : Catalog C) (S : ContentStore C.World) (J : Json)
    (A : Archive C.World) (U : Unpacker C) (H : IsImporting C L S A U) where
  open C use {World}
  open L use {view}

  import_decode_index-Keeps :
      (d : Descriptor) → Keeps view (import_decode_index C initiated S J A U d)
  unfolding import_decode_index
  import_decode_index-Keeps d =
      bind-Keeps view (S.read_blob d) (λ b. lift (J.decode_index b)) (H.read_blob-Keeps d)
        (λ b w. refl)

  abbrev after_children : ImportConfig C A → Result (List Descriptor) → M World (List Descriptor)
  after_children cfg r = elim r [
    | ok cs ↦ pure cs
    | err e ↦ if cfg.skip_missing && is_not_found e then fail A.skip_desc else fail e
  ]

  import_children-Keeps :
      (cfg : ImportConfig C A) (d : Descriptor)
      → Keeps view (import_children C initiated S J A U cfg d)
  unfolding import_children
  import_children-Keeps cfg d =
      settled-Keeps view (A.children d) (after_children cfg) (H.children-Keeps d) (λ cs w. refl)
        (λ e.
          if-Keeps view (cfg.skip_missing && is_not_found e) (fail A.skip_desc) (fail e) (λ w. refl)
            (λ w. refl))

  collected_view :
      (cfg : ImportConfig C A) (x : Result (List Descriptor) × World) (imgs : List Image)
      → view (collected C initiated S J A U cfg x imgs).1.0 ≡ view x.1
  collected_view cfg (ok ms, w) imgs = refl
  collected_view cfg (err e, w) imgs = refl

  by_index :
      (cfg : ImportConfig C A) (b : Bool) (d : Descriptor) (w : World) (imgs : List Image)
      → view
          (if b
            then collected C initiated S J A U cfg
                (import_decode_index C initiated S J A U d w)
                imgs
            else beside C initiated S J A U (import_children C initiated S J A U cfg d w) imgs).1.0
        ≡ view w
  by_index cfg true d w imgs =
      collected_view cfg (import_decode_index C initiated S J A U d w) imgs
      ∙ import_decode_index-Keeps d w
  by_index cfg false d w imgs = import_children-Keeps cfg d w

  import_handler-Keeps :
      (cfg : ImportConfig C A) (index d : Descriptor)
      → Keeps (λ s. view s.0) (import_handler C initiated S J A U cfg index d)
  unfolding import_handler
  import_handler-Keeps cfg index d (w, imgs) = by_index cfg (d.digest == index.digest) d w imgs

  walked :
      (x : Result (Unit {0}) × (World × List Image)) (r : Records)
      → view x.1.0 ≡ r
      → view
          (elim x.0 as (λ _. Result (List Image) × World) [
            | ok _ ↦ (ok x.1.1, x.1.0)
            | err e ↦ (err e, x.1.0)
          ]).1
        ≡ r
  walked (ok _, s) r h = h
  walked (err e, s) r h = h

  import_images-Keeps :
      (cfg : ImportConfig C A) (index : Descriptor)
      → Keeps view (import_images C initiated S J A U cfg index)
  unfolding import_images
  import_images-Keeps cfg index w = walked _ (view w) (
      H.walk-Keeps _ cfg.referrers cfg.discard_layers (import_handler C initiated S J A U cfg index)
        (import_handler-Keeps cfg index) index (w, image_named C A cfg.index_name index))

  abbrev or_failed : Result (Unit {0}) → Bool → Bool
  or_failed r failed = elim r [ ok _ ↦ failed | err _ ↦ true ]

  abbrev rest_unpacked : List (ApplyCommitOpt C) → List Image → Result (Unit {0}) → M World Bool
  rest_unpacked opts imgs r = do
    failed ← unpack_images C initiated S J A U opts imgs
    pure (or_failed r failed)

  unpack_images-Keeps :
      (opts : List (ApplyCommitOpt C)) (imgs : List Image)
      → Keeps view (unpack_images C initiated S J A U opts imgs)
  unfolding unpack_images
  unpack_images-Keeps opts [] = λ w. refl
  unpack_images-Keeps opts (img ∷ imgs) =
      bind-Keeps view (attempt (unpack C U (some img) opts)) (rest_unpacked opts imgs)
        (unpack-Keeps C L U H.unpacks img opts)
        (λ r.
          bind-Keeps view (unpack_images C initiated S J A U opts imgs) (λ b. pure (or_failed r b))
            (unpack_images-Keeps opts imgs) (λ b w. refl))

  abbrev failure : Bool → Option Error
  failure failed = if failed then some (message "failed unpacking some image") else none

  abbrev finish : Bool → List (ApplyCommitOpt C) → List Image → M World (List Image × Option Error)
  finish b opts stored =
      if b
      then (do
        failed ← unpack_images C initiated S J A U opts stored
        pure (stored, failure failed))
      else pure (stored, none)

  unpacked-Holds :
      (r : Records) (stored : List Image) (x : Result Bool × World)
      → view x.1 ≡ set_all stored r
      → Holds C L stored_of r (after x (λ failed. pure (stored, failure failed)))
  unpacked-Holds r stored (ok b, w) h = h
  unpacked-Holds r stored (err e, w) h = (stored, h)

  finish-Holds :
      (b : Bool) (opts : List (ApplyCommitOpt C)) (stored : List Image) (r : Records) (w : World)
      → view w ≡ set_all stored r
      → Holds C L stored_of r (finish b opts stored w)
  finish-Holds true opts stored r w h =
      unpacked-Holds r stored (unpack_images C initiated S J A U opts stored w)
        (unpack_images-Keeps opts stored w ∙ h)
  finish-Holds false opts stored r w h = h

  -- The images that an import returns, unpacked or not, are set in the image store, each whole under its
  -- name and in their order, and no other record has changed; if it ends in an error, some images are
  -- set and no other record has changed. The content store, the archive and the unpacker leave the
  -- records alone.
  pub import_func-Holds :
      (reader : A.Reader) (opts : List (ImportOpt C A)) (w : World)
      → Holds C L stored_of (view w) (import_func C initiated S J A U reader opts w)
  unfolding import_func
  import_func-Holds reader opts w =
      bind-Holds C L stored_of (view w) (lift (apply_options opts (no_import_opts C A)) w) _ refl
        (λ o w1.
          bind-Holds C L stored_of (view w1) (A.import_index o.cfg.compress reader w1) _
            (H.import_index-Keeps o.cfg.compress reader w1)
            (λ index w2.
              bind-Holds C L stored_of (view w2) (import_images C initiated S J A U o.cfg index w2)
                _ (import_images-Keeps o.cfg index w2)
                (λ imgs w3.
                  pass-Holds C L (λ js. js) stored_of (view w3)
                    (put_images C (put_fields C A o.cfg) (labelled C A o.cfg imgs) w3)
                    (finish o.unpack o.a_opts)
                    (put_images-Holds C L (put_fields C A o.cfg) (labelled C A o.cfg imgs) w3)
                    (λ stored w4 e. finish-Holds o.unpack o.a_opts stored (view w3) w4 e))))
