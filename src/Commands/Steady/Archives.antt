-- ===== src/Commands/Steady/Archives.antt =====
-- The records of an import, and its walk over the archive, keep an invariant that the libraries keep, if every name may be written.
use mysnapshotter.Prelude.{
  Bool, ◌&&◌, List, [], ◌∷◌, if◌then◌else◌, by_if, Text, ◌==◌, is_not_found, Result, ok, err,
}
use mysnapshotter.Extractor.System.{M, pure, fail}
use mysnapshotter.Extractor.Maintaining.{
  Whatever, Maintains, pure-Maintains, fail-Maintains, lift-Maintains, bind-Maintains,
  settled-Maintains, if-Maintains,
}
use mysnapshotter.Extractor.Confined.{any_ok}
use mysnapshotter.Store.Registry.{Descriptor}
use mysnapshotter.Store.Containerd.{Containerd, Image}
use mysnapshotter.Store.Archives.{Archive, ImportConfig}
use mysnapshotter.Store.Storing.{put_image, put_images}
use mysnapshotter.Store.Importing.{
  import_decode_index, image_named, import_children, collected, import_handler, import_images,
}
use mysnapshotter.Commands.{Host, World}
use mysnapshotter.Commands.Steady.{IsSteady}

module _ (H : Host) (Names Refs : Text → Type 0) (I : World H → Type 0)
    (S : IsSteady H Names Refs I) (every : (n : Text) → Names n) where
  abbrev C : Containerd
  C = H.containerd

  abbrev A : Archive (World H)
  A = H.archive

  abbrev put_end : Image → Result Image → M (World H) Image
  put_end img r = elim r [
    | ok i ↦ pure i
    | err e ↦ if is_not_found e then C.image_create img else fail e
  ]

  put_image-Maintains :
      (fields : List Text) (img : Image) → Maintains I Whatever (put_image C fields img)
  unfolding put_image
  put_image-Maintains fields img =
      settled-Maintains I Whatever (put_end img) (S.image_update img fields (every img.name))
        (λ i _. pure-Maintains I i tt)
        (λ e.
          if-Maintains I (is_not_found e) (S.image_create img (every img.name))
            (fail-Maintains I e))

  pub put_images-Maintains :
      (fields : List Text) (imgs : List Image) → Maintains I Whatever (put_images C fields imgs)
  unfolding put_images
  put_images-Maintains fields [] = pure-Maintains I [] tt
  put_images-Maintains fields (img ∷ imgs) =
      bind-Maintains I Whatever (put_image-Maintains fields img) (λ i _.
        bind-Maintains I Whatever (put_images-Maintains fields imgs)
          (λ is _. pure-Maintains I (i ∷ is) tt))

  module _ (initiated : Bool) where
    import_decode_index-Maintains :
        (d : Descriptor)
        → Maintains I Whatever (import_decode_index C initiated H.contents H.json A H.unpacker d)
    unfolding import_decode_index
    import_decode_index-Maintains d =
        bind-Maintains I Whatever (S.read_blob d)
          (λ b _. lift-Maintains I (H.json.decode_index b) (any_ok _))

    abbrev after_children :
        ImportConfig C A → Result (List Descriptor) → M (World H) (List Descriptor)
    after_children cfg r = elim r [
      | ok cs ↦ pure cs
      | err e ↦ if cfg.skip_missing && is_not_found e then fail A.skip_desc else fail e
    ]

    import_children-Maintains :
        (cfg : ImportConfig C A) (d : Descriptor)
        → Maintains I Whatever (import_children C initiated H.contents H.json A H.unpacker cfg d)
    unfolding import_children
    import_children-Maintains cfg d =
        settled-Maintains I Whatever (after_children cfg) (S.children d)
          (λ cs _. pure-Maintains I cs tt)
          (λ e.
            if-Maintains I (cfg.skip_missing && is_not_found e) (fail-Maintains I _)
              (fail-Maintains I e))

    -- The images that the handler collects stand beside the world.
    abbrev Beside : World H × List Image → Type 0
    Beside s = I s.0

    collected_kept :
        (cfg : ImportConfig C A) (x : Result (List Descriptor) × World H) (imgs : List Image)
        → I x.1
        → Beside (collected C initiated H.contents H.json A H.unpacker cfg x imgs).1
    collected_kept cfg (ok ms, w) imgs i = i
    collected_kept cfg (err e, w) imgs i = i

    import_handler-Maintains :
        (cfg : ImportConfig C A) (index d : Descriptor)
        → Maintains Beside Whatever
            (import_handler C initiated H.contents H.json A H.unpacker cfg index d)
    unfolding import_handler
    import_handler-Maintains cfg index d = record {
      run = λ s i. (
        by_if {A = Result (List Descriptor) × (World H × List Image)} (λ x. Beside x.1)
            (d.digest == index.digest)
            (collected_kept cfg
              (import_decode_index C initiated H.contents H.json A H.unpacker d s.0) s.1
              ((import_decode_index-Maintains d).run s.0 i).0)
            ((import_children-Maintains cfg d).run s.0 i).0,
        any_ok _,
      );
    }

    walked :
        (x : Result (Unit {0}) × (World H × List Image))
        → I x.1.0
        → I
            (elim x.0 as (λ _. Result (List Image) × World H) [
              | ok _ ↦ (ok x.1.1, x.1.0)
              | err e ↦ (err e, x.1.0)
            ]).1
    walked (ok _, s) i = i
    walked (err e, s) i = i

    pub import_images-Maintains :
        (cfg : ImportConfig C A) (index : Descriptor)
        → Maintains I Whatever (import_images C initiated H.contents H.json A H.unpacker cfg index)
    unfolding import_images
    import_images-Maintains cfg index = record {
      run = λ w i. (
        walked _
            ((S.walk_archive _ cfg.referrers cfg.discard_layers _
                (import_handler-Maintains cfg index) index).run
              (w, image_named C A cfg.index_name index) i).0,
        any_ok _,
      );
    }
