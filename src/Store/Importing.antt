-- ===== src/Store/Importing.antt =====
-- pkg/ocistore/import.go.
pub mod Given
pub mod Names
use mysnapshotter.Prelude.{
  ℕ, Bool, true, false, ◌&&◌, ◌||◌, not, Option, none, some, List, [], ◌∷◌, ◌++◌, if◌then◌else◌,
  is_some, Text, codes, ◌==◌, Error, message, is_not_found, Result, ok, err,
}
use mysnapshotter.Extractor.System.{M, pure, fail, ◌>>=◌, ◌>>◌, lift, attempt}
use mysnapshotter.Chunked.Toc.{Annotations}
use mysnapshotter.Store.Registry.{Descriptor}
use mysnapshotter.Store.Containerd.{Labels, Containerd, Image}
use mysnapshotter.Store.Content.{ContentStore, Json}
use mysnapshotter.Store.Archives.{
  Archive, annotation, ImportConfig, ImportOpts, ImportOpt, no_import_opts,
}
use mysnapshotter.Store.Options.{ApplyCommitOpt, apply_options}
use mysnapshotter.Store.Snapshots.{checked, leased}
use mysnapshotter.Store.Storing.{put_images, keep_first}
use mysnapshotter.Store.Unpacking.{Unpacker, unpack}

module _ (C : Containerd) (A : Archive C.World) where
  -- `importImageName`.
  unfoldable pub import_image_name : Annotations → Option (Text → Text) → Text
  import_image_name a cleanup =
      let image = annotation a A.annotation_image_name in
      let ref = annotation a A.annotation_ref_name in
      if not (image == [])
      then image
      else elim cleanup [ none ↦ ref | some f ↦ if ref == [] then ref else f ref ]

  -- An image with no labels, if its name is not empty.
  abbrev pub image_named : Text → Descriptor → List Image
  image_named name m =
      if name == [] then [] else record { name = name; target = m; labels = [] } ∷ []

  -- The images of one manifest of the index.
  unfoldable pub manifest_images : ImportConfig C A → Descriptor → List Image
  unfolding import_image_name
  manifest_images cfg m =
      let name = import_image_name m.annotations cfg.image_ref_t in
      let skipped : Bool = elim cfg.skip_dgst_ref [ none ↦ false | some f ↦ f name ] in
      let by_digest : List Image = elim cfg.dgst_ref_t [
        | none ↦ []
        | some f ↦ image_named (f m.digest) m
      ] in
      image_named name m
      ++ (if is_some (m.annotations A.annotation_manifest_subject) || skipped
          then []
          else by_digest)

  unfoldable pub index_images : ImportConfig C A → List Descriptor → List Image
  unfolding manifest_images
  index_images cfg [] = []
  index_images cfg (m ∷ ms) = manifest_images cfg m ++ index_images cfg ms

  -- The fields that an update sets, and the image with the labels of the configuration.
  unfoldable pub put_fields : ImportConfig C A → List Text
  put_fields cfg = codes "target" ∷ (if is_some cfg.image_labels then codes "labels" ∷ [] else [])

  unfoldable pub labelled : ImportConfig C A → List Image → List Image
  labelled cfg [] = []
  labelled cfg (img ∷ imgs) =
      elim cfg.image_labels [ none ↦ img | some l ↦ record img { labels = l } ] ∷ labelled cfg imgs

module _ (C : Containerd) (initiated : Bool) (S : ContentStore C.World) (J : Json)
    (A : Archive C.World) (U : Unpacker C) where
  open C use {World}

  -- `importDecodeIndex`.
  unfoldable pub import_decode_index : Descriptor → M World (List Descriptor)
  import_decode_index desc = do b ← S.read_blob desc; lift (J.decode_index b)

  abbrev pub beside : {X : Type 0} → Result X × World → List Image → Result X × (World × List Image)
  beside (r, w) imgs = (r, (w, imgs))

  -- `images.Children`, where a missing blob may be passed over.
  unfoldable pub import_children : ImportConfig C A → Descriptor → M World (List Descriptor)
  import_children cfg desc = do
    r ← attempt (A.children desc)
    (elim r [
      | ok cs ↦ pure cs
      | err e ↦ if cfg.skip_missing && is_not_found e then fail A.skip_desc else fail e
    ])

  abbrev pub collected :
      ImportConfig C A
      → Result (List Descriptor) × World
      → List Image
      → Result (List Descriptor) × (World × List Image)
  collected cfg (ok ms, w) imgs = (ok ms, (w, imgs ++ index_images C A cfg ms))
  collected cfg (err e, w) imgs = (err e, (w, imgs))

  -- The handler: the index is decoded and its images are collected.
  unfoldable pub import_handler :
      ImportConfig C A → Descriptor → Descriptor → M (World × List Image) (List Descriptor)
  unfolding import_decode_index index_images import_children
  import_handler cfg index desc (w, imgs) =
      if desc.digest == index.digest
      then collected cfg (import_decode_index desc w) imgs
      else beside (import_children cfg desc w) imgs

  -- The images of an archive whose index is in the store.
  unfoldable pub import_images : ImportConfig C A → Descriptor → M World (List Image)
  unfolding import_handler
  import_images cfg index w =
      let matcher : A.Matcher =
        if cfg.all_platforms
        then A.all_platforms
        else elim cfg.platform_matcher [ none ↦ A.store_platform | some m ↦ m ] in
      let (r, (w', imgs)) =
        A.walk_not_empty matcher cfg.referrers cfg.discard_layers (import_handler cfg index) index
          (w, image_named C A cfg.index_name index) in
      elim r [ ok _ ↦ (ok imgs, w') | err e ↦ (err e, w') ]

  -- All images are unpacked; tells if one could not be.
  unfoldable pub unpack_images : List (ApplyCommitOpt C) → List Image → M World Bool
  unfolding unpack
  unpack_images opts [] = pure false
  unpack_images opts (img ∷ imgs) = do
    r ← attempt (unpack C U (some img) opts)
    failed ← unpack_images opts imgs
    pure (elim r [ ok _ ↦ failed | err _ ↦ true ])

  -- `importFunc`: images that are not all unpacked are returned with an error.
  unfoldable pub import_func : A.Reader → List (ImportOpt C A) → M World (List Image × Option Error)
  unfolding apply_options import_images put_images put_fields labelled unpack_images
  import_func reader opts = do
    o ← lift (apply_options opts (no_import_opts C A))
    index ← A.import_index o.cfg.compress reader
    imgs ← import_images o.cfg index
    stored ← put_images C (put_fields C A o.cfg) (labelled C A o.cfg imgs)
    (if o.unpack
        then (do
          failed ← unpack_images o.a_opts stored
          pure (stored, if failed then some (message "failed unpacking some image") else none))
        else pure (stored, none))

  -- `importFile`: an error of closing the file is an error of the import.
  unfoldable pub import_file : Text → List (ImportOpt C A) → M World (List Image × Option Error)
  unfolding import_func
  import_file file opts = do
    reader ← A.open_file file
    r ← attempt (import_func reader opts)
    closed ← attempt (A.close_file reader)
    (imgs, e) ← lift r
    pure (imgs, elim e [ some x ↦ some x | none ↦ elim closed [ ok _ ↦ none | err x ↦ some x ] ])

  -- What `Import` and its siblings go on with: an error is only logged.
  abbrev pub imported : Result (List Image × Option Error) → List Image
  imported (ok (imgs, _)) = imgs
  imported (err _) = []

  -- `Import`.
  unfoldable pub import_reader : A.Reader → List (ImportOpt C A) → M World (List Image)
  unfolding leased import_func
  import_reader reader opts =
      leased C initiated (do r ← attempt (import_func reader opts); pure (imported r))

  -- `ImportFile`.
  unfoldable pub import_from_file : Text → List (ImportOpt C A) → M World (List Image)
  unfolding leased import_file
  import_from_file file opts =
      leased C initiated (do r ← attempt (import_file file opts); pure (imported r))

  -- `SingleImportFile`.
  unfoldable pub single_import_file : ℕ → Text → List (ImportOpt C A) → M World Image
  unfolding leased import_file keep_first
  single_import_file rounds file opts =
      leased C initiated
        (do r ← attempt (import_file file opts); keep_first C initiated rounds (imported r))
