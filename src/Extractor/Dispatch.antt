-- ===== src/Extractor/Dispatch.antt =====
-- `fetchManifestAndConfig` of pkg/extractor/extractor.go: the handler that reads an image's manifest and
-- configuration. The media types and the JSON decoders are parameters.
pub mod Once
use mysnapshotter.Prelude.{
  ℕ, Option, none, some, List, [], ◌∷◌, if◌then◌else◌, Error, message, wrap, Result, ok, err,
}
use mysnapshotter.Extractor.System.{M, pure, fail, ◌>>=◌, ◌>>◌, lift, named}
use mysnapshotter.Store.Registry.{Descriptor, Fetcher, fetch_metadata}
use mysnapshotter.Store.Content.{Manifest, ImageConfig, MediaTypes, Json}

-- `metadata`.
pub record Metadata : Type 0 where
  pub mfst : Option Manifest
  pub conf : Option ImageConfig

abbrev pub no_metadata : Metadata
no_metadata = record { mfst = none; conf = none }

-- The metadata as the state of an action.
abbrev pub set_manifest : Manifest → M Metadata (Unit {0})
set_manifest m s = (ok tt, record s { mfst = some m })

abbrev pub set_config : ImageConfig → M Metadata (Unit {0})
set_config c s = (ok tt, record s { conf = some c })

abbrev pub once : {A : Type 0} → Error → Option A → M Metadata (Unit {0})
once e none = pure tt
once e (some _) = fail e

module _ (F : Fetcher) (T : MediaTypes) (J : Json) where
  abbrev pub blob : Descriptor → Result (List ℕ)
  blob desc = fetch_metadata F T.is_layer desc

  unfoldable pub handle_index : Descriptor → M Metadata (List Descriptor)
  unfolding fetch_metadata
  handle_index desc = do
    b ← named "failed fetching index" (lift (blob desc))
    named "unmarshalling index error" (lift (J.decode_index b))

  unfoldable pub handle_manifest : Descriptor → M Metadata (List Descriptor)
  unfolding fetch_metadata
  handle_manifest desc s =
      (do
        once (message "manifest already defined, there can only be one") s.mfst
        b ← named "failed fetching manifest" (lift (blob desc))
        m ← named "unmarshalling manifest error" (lift (J.decode_manifest b))
        set_manifest m
        pure (m.config ∷ m.layers))
        s

  unfoldable pub handle_config : Descriptor → M Metadata (List Descriptor)
  unfolding fetch_metadata
  handle_config desc s =
      (do
        once (message "config is not zero, there can only be one") s.conf
        b ← named "failed fetching manifest" (lift (blob desc))
        c ← named "unmarshalling config error" (lift (J.decode_config b))
        set_config c
        pure [])
        s

  -- The handler. Layers and unknown types are passed over.
  unfoldable pub fetch_manifest_and_config : Descriptor → M Metadata (List Descriptor)
  unfolding handle_index handle_manifest handle_config
  fetch_manifest_and_config desc =
      if T.is_docker desc.media_type
      then fail (message "media type not supported")
      else if T.is_index desc.media_type
      then handle_index desc
      else if T.is_manifest desc.media_type
      then handle_manifest desc
      else if T.is_config desc.media_type
      then handle_config desc
      else pure []
