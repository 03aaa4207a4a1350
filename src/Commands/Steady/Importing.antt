-- ===== src/Commands/Steady/Importing.antt =====
-- `ImportFile` keeps an invariant that the libraries keep, if every name may be written.
use mysnapshotter.Prelude.{
  Bool, true, false, Option, none, some, List, [], ◌∷◌, if◌then◌else◌, Text, Error, message, Result,
  ok, err,
}
use mysnapshotter.Extractor.System.{M, pure, ◌>>=◌, lift, attempt}
use mysnapshotter.Extractor.Maintaining.{
  IfOk, Whatever, Maintains, pure-Maintains, lift-Maintains, bind-Maintains, attempt-Maintains,
  if-Maintains,
}
use mysnapshotter.Extractor.Confined.{any_ok}
use mysnapshotter.Store.Containerd.{Containerd, Image}
use mysnapshotter.Store.Options.{ApplyCommitOpt, apply_options}
use mysnapshotter.Store.Archives.{Archive, ImportOpt, no_import_opts}
use mysnapshotter.Store.Importing.{
  put_fields, labelled, unpack_images, import_func, import_file, imported, import_from_file,
}
use mysnapshotter.Commands.{Host, World}
use mysnapshotter.Commands.Steady.{IsSteady}
use mysnapshotter.Commands.Steady.Images.{leased-Maintains}
use mysnapshotter.Commands.Steady.Unpacking.{unpack-Maintains}
use mysnapshotter.Commands.Steady.Archives.{put_images-Maintains, import_images-Maintains}

module _ (H : Host) (Names Refs : Text → Type 0) (I : World H → Type 0)
    (S : IsSteady H Names Refs I) (every : (n : Text) → Names n) where
  abbrev C : Containerd
  C = H.containerd

  abbrev A : Archive (World H)
  A = H.archive

  module _ (initiated : Bool) where
    abbrev or_failed : Result (Unit {0}) → Bool → Bool
    or_failed r failed = elim r [ ok _ ↦ failed | err _ ↦ true ]

    abbrev rest_unpacked :
        List (ApplyCommitOpt C) → List Image → Result (Unit {0}) → M (World H) Bool
    rest_unpacked opts imgs r = do
      failed ← unpack_images C initiated H.contents H.json A H.unpacker opts imgs
      pure (or_failed r failed)

    unpack_images-Maintains :
        (opts : List (ApplyCommitOpt C)) (imgs : List Image)
        → Maintains I Whatever (unpack_images C initiated H.contents H.json A H.unpacker opts imgs)
    unfolding unpack_images
    unpack_images-Maintains opts [] = pure-Maintains I false tt
    unpack_images-Maintains opts (img ∷ imgs) =
        bind-Maintains I (IfOk Whatever) {f = rest_unpacked opts imgs}
          (attempt-Maintains I (unpack-Maintains H Names Refs I S (some img) opts))
          (λ r _.
            bind-Maintains I Whatever (unpack_images-Maintains opts imgs)
              (λ failed _. pure-Maintains I (or_failed r failed) tt))

    abbrev failure : Bool → Option Error
    failure failed = if failed then some (message "failed unpacking some image") else none

    abbrev finish :
        Bool → List (ApplyCommitOpt C) → List Image → M (World H) (List Image × Option Error)
    finish b opts stored =
        if b
        then (do
          failed ← unpack_images C initiated H.contents H.json A H.unpacker opts stored
          pure (stored, failure failed))
        else pure (stored, none)

    finish-Maintains :
        (b : Bool) (opts : List (ApplyCommitOpt C)) (stored : List Image)
        → Maintains I Whatever (finish b opts stored)
    finish-Maintains b opts stored =
        if-Maintains I b
          (bind-Maintains I Whatever (unpack_images-Maintains opts stored)
            (λ failed _. pure-Maintains I (stored, failure failed) tt))
          (pure-Maintains I (stored, none) tt)

    import_func-Maintains :
        (reader : Archive.Reader A) (opts : List (ImportOpt C A))
        → Maintains I Whatever (import_func C initiated H.contents H.json A H.unpacker reader opts)
    unfolding import_func
    import_func-Maintains reader opts =
        bind-Maintains I Whatever
          (lift-Maintains I (apply_options opts (no_import_opts C A)) (any_ok _))
          (λ o _. bind-Maintains I Whatever (S.import_index o.cfg.compress reader) (λ index _.
            bind-Maintains I Whatever
              (import_images-Maintains H Names Refs I S every initiated o.cfg index)
              (λ imgs _.
                bind-Maintains I Whatever {f = finish o.unpack o.a_opts}
                  (put_images-Maintains H Names Refs I S every (put_fields C A o.cfg)
                    (labelled C A o.cfg imgs))
                  (λ stored _. finish-Maintains o.unpack o.a_opts stored))))

    abbrev both : Option Error → Result (Unit {0}) → Option Error
    both e closed = elim e [ some x ↦ some x | none ↦ elim closed [ ok _ ↦ none | err x ↦ some x ] ]

    abbrev joined :
        Result (List Image × Option Error)
        → Result (Unit {0})
        → M (World H) (List Image × Option Error)
    joined r closed = do (imgs, e) ← lift r; pure (imgs, both e closed)

    import_file-Maintains :
        (file : Text) (opts : List (ImportOpt C A))
        → Maintains I Whatever (import_file C initiated H.contents H.json A H.unpacker file opts)
    unfolding import_file
    import_file-Maintains file opts = bind-Maintains I Whatever (S.open_file file) (λ reader _.
        bind-Maintains I (IfOk Whatever) {f = λ r. attempt (A.close_file reader) >>= joined r}
          (attempt-Maintains I (import_func-Maintains reader opts))
          (λ r _.
            bind-Maintains I (IfOk Whatever) {f = joined r}
              (attempt-Maintains I (S.close_file reader))
              (λ closed _.
                bind-Maintains I Whatever (lift-Maintains I r (any_ok r))
                  (λ q _. pure-Maintains I (q.0, both q.1 closed) tt))))

    pub import_from_file-Maintains :
        (file : Text) (opts : List (ImportOpt C A))
        → Maintains I Whatever
            (import_from_file C initiated H.contents H.json A H.unpacker file opts)
    unfolding import_from_file
    import_from_file-Maintains file opts = leased-Maintains H Names Refs I S initiated (
        bind-Maintains I (IfOk Whatever) (attempt-Maintains I (import_file-Maintains file opts))
          (λ r _. pure-Maintains I (imported C initiated H.contents H.json A H.unpacker r) tt))
