-- ===== src/Store/Content.antt =====
-- The readers of pkg/ocistore/ociStore.go: an image's configuration, index and manifest in the content
-- store. The content store, the JSON decoders and containerd's media types are parameters.
pub mod Matching
use mysnapshotter.Prelude.{
  ℕ, Bool, Option, none, some, List, [], ◌∷◌, if◌then◌else◌, Text, Result, ok, err,
}
use mysnapshotter.Prelude.Int.{ℤ}
use mysnapshotter.Extractor.System.{M, pure, ◌>>=◌, ◌>>◌, lift, attempt}
use mysnapshotter.Store.Registry.{Descriptor}
use mysnapshotter.Store.Containerd.{Labels, Image}

-- `ocispec.Manifest`.
pub record Manifest : Type 0 where
  pub config : Descriptor
  pub layers : List Descriptor

-- `ocispec.ImageConfig`: a command may be nil. The fields that no code here reads or sets are one.
pub record RunConfig : Type 0 where
  pub cmd : Option (List Text)
  pub entrypoint : Option (List Text)
  pub other : Text

-- `ocispec.History`.
pub record History : Type 0 where
  pub created : Option ℤ
  pub created_by : Text
  pub author : Text
  pub comment : Text
  pub empty_layer : Bool

-- `ocispec.Image`, with the variant and the version of the platform.
pub record ImageConfig : Type 0 where
  pub architecture : Text
  pub os : Text
  pub variant : Text
  pub os_version : Text
  pub created : Option ℤ
  pub author : Text
  pub config : RunConfig
  pub rootfs_type : Text
  pub diff_ids : List Text
  pub history : List History

-- `images.IsManifestType` and its siblings.
pub record MediaTypes : Type 0 where
  pub is_docker : Text → Bool
  pub is_index : Text → Bool
  pub is_manifest : Text → Bool
  pub is_config : Text → Bool
  pub is_layer : Text → Bool

-- `json.Unmarshal` and `json.Marshal`. An index is the list of its manifests.
pub record Json : Type 0 where
  pub decode_index : List ℕ → Result (List Descriptor)
  pub decode_manifest : List ℕ → Result Manifest
  pub decode_config : List ℕ → Result ImageConfig
  pub encode_manifest : Manifest → Result (List ℕ)
  pub encode_config : ImageConfig → Result (List ℕ)

-- `content.ReadBlob` and `WriteBlob`, `Info`, `Image.Config` on the store's platform, the digests of
-- go-digest, and `reflect.DeepEqual` on two descriptors.
pub record ContentStore (World : Type 0) : Type 0 where
  pub read_blob : Descriptor → World → Result (List ℕ) × World
  pub write_blob : Text → List ℕ → Descriptor → Labels → World → Result (Unit {0}) × World
  pub content_info : Text → World → Result (ℤ × Labels) × World
  pub config_of : Image → World → Result Descriptor × World
  pub digest_of : List ℕ → Text
  pub parse_digest : Text → Result Text
  pub same_descriptor : Descriptor → Descriptor → Bool

module _ {World : Type 0} (S : ContentStore World) (T : MediaTypes) (J : Json) where
  -- `ReadImageConfig`.
  unfoldable pub read_image_config : Image → M World (ImageConfig × Descriptor)
  read_image_config img = do
    desc ← S.config_of img
    p ← S.read_blob desc
    config ← lift (J.decode_config p)
    pure (config, desc)

  -- `ReadIndex`.
  unfoldable pub read_index : Image → M World (Option (List Descriptor × Descriptor))
  read_index img =
      if T.is_index img.target.media_type
      then (do
        b ← S.read_blob img.target
        manifests ← lift (J.decode_index b)
        pure (some (manifests, img.target)))
      else pure none

  -- The loop of `ReadManifest`: a manifest that cannot be read is passed over, and one that cannot be
  -- decoded is an error.
  unfoldable pub find_manifest :
      Descriptor → List Descriptor → M World (Option (Manifest × Descriptor))
  find_manifest config_desc [] = pure none
  find_manifest config_desc (d ∷ ds) = do
    let rest = find_manifest config_desc ds
    r ← attempt (S.read_blob d)
    (elim r [
      | err _ ↦ rest
      | ok b ↦ do
        mani ← lift (J.decode_manifest b)
        if S.same_descriptor config_desc mani.config then pure (some (mani, d)) else rest
    ])

  -- `ReadManifest` of an index.
  unfoldable pub read_platform_manifest :
      Image → Option (List Descriptor × Descriptor) → M World (Option (Manifest × Descriptor))
  unfolding find_manifest
  read_platform_manifest img none = pure none
  read_platform_manifest img (some (manifests, _)) = do
    config_desc ← S.config_of img
    find_manifest config_desc manifests

  -- `ReadManifest`.
  unfoldable pub read_manifest : Image → M World (Option (Manifest × Descriptor))
  unfolding read_index read_platform_manifest
  read_manifest img =
      if T.is_manifest img.target.media_type
      then (do
        b ← S.read_blob img.target
        mani ← lift (J.decode_manifest b)
        pure (some (mani, img.target)))
      else if T.is_index img.target.media_type
      then (do idx ← read_index img; read_platform_manifest img idx)
      else pure none
