-- ===== src/Store/Committing/Readable.antt =====
-- What `writeContentsForImage` of pkg/ocistore/commit.go writes is what `ReadManifest` reads.
use mysnapshotter.Prelude.{
  ℕ, Option, none, some, List, [], ◌∷◌, ◌++◌, ◌≡◌, refl, Text, Result, ok, err,
}
use mysnapshotter.Extractor.System.{M, pure, after, ◌>>=◌, ◌>>◌, lift}
use mysnapshotter.Store.Registry.{Descriptor}
use mysnapshotter.Store.Containerd.{Labels, Containerd}
use mysnapshotter.Store.Content.{Manifest, ImageConfig, Json, ContentStore}
use mysnapshotter.Store.Commits.{commit_layers, manifest_labels}
use mysnapshotter.Store.Committing.{Differ, described, snapshot_label, write_contents_for_image}

-- A content store: a blob that is written under its digest can be read, and writing changes no blob
-- that can be read. And what the encoders write, the decoders read.
pub record IsReadable {World : Type 0} (S : ContentStore World) : Type 0 where
  pub written :
      (bytes : List ℕ) (desc : Descriptor) (labels : Labels) (w : World)
      → desc.digest ≡ S.digest_of bytes
      → (S.write_blob desc.digest bytes desc labels w).0 ≡ ok tt
      → (S.read_blob desc (S.write_blob desc.digest bytes desc labels w).1).0 ≡ ok bytes
  pub kept :
      (digest : Text) (bytes : List ℕ) (desc other : Descriptor) (labels : Labels) (b : List ℕ)
      (w : World)
      → (S.read_blob other w).0 ≡ ok b
      → (S.read_blob other (S.write_blob digest bytes desc labels w).1).0 ≡ ok b

module _ (C : Containerd) (S : ContentStore C.World) (J : Json) (D : Differ C) where
  open C use {World}

  -- The layers of the base image, none without one.
  abbrev pub base_layers : Option Manifest → List Descriptor
  base_layers none = []
  base_layers (some m) = m.layers

  layers_last :
      (base : Option Manifest) (layer : Descriptor)
      → commit_layers base layer ≡ base_layers base ++ (layer ∷ [])
  layers_last none layer = refl
  layers_last (some m) layer = refl

  -- What a written image is, to a reader of its manifest and of its configuration: the new layer is on
  -- top of those of the base image.
  abbrev pub Readable :
      Option Manifest → ImageConfig → Descriptor → Result (Descriptor × Text) × World → Type 0
  Readable base config layer (err e, w) = Unit
  Readable base config layer (ok (desc, digest), w) =
      (m : Manifest) × (mb : List ℕ) × (cb : List ℕ) × (m.layers ≡ base_layers base ++ (layer ∷ []))
      × (m.config.digest ≡ digest)
      × ((S.read_blob desc w).0 ≡ ok mb)
      × (J.encode_manifest m ≡ ok mb)
      × ((S.read_blob m.config w).0 ≡ ok cb)
      × (J.encode_config config ≡ ok cb)

  abbrev second : Descriptor → List ℕ → Labels → Descriptor → M World (Descriptor × Text)
  second config_desc config_json labels desc = do
    S.write_blob config_desc.digest config_json config_desc labels
    pure (desc, config_desc.digest)

  module _ (I : IsReadable S) (base : Option Manifest) (config : ImageConfig) (layer : Descriptor)
      (labels clabels : Labels) (cb mb : List ℕ) where
    abbrev config_desc : Descriptor
    config_desc = described C S J D D.docker_config cb

    abbrev manifest : Manifest
    manifest = record { config = config_desc; layers = commit_layers base layer }

    abbrev desc : Descriptor
    desc = described C S J D D.docker_manifest mb

    abbrev write_config : World → Result (Unit {0}) × World
    write_config = S.write_blob config_desc.digest cb config_desc clabels

    after_config :
        (r : Result (Unit {0})) (w : World)
        → J.encode_config config ≡ ok cb
        → J.encode_manifest manifest ≡ ok mb
        → (S.read_blob desc w).0 ≡ ok mb
        → (write_config w).0 ≡ r
        → Readable base config layer
            (after (r, (write_config w).1) (λ _. pure (desc, config_desc.digest)))
    after_config (err e) w ec em read h = tt
    after_config (ok _) w ec em read h = (
      manifest,
      mb,
      cb,
      layers_last base layer,
      refl,
      I.kept config_desc.digest cb config_desc desc clabels mb w read,
      em,
      I.written cb config_desc clabels w refl h,
      ec,
    )

    abbrev write_manifest : World → Result (Unit {0}) × World
    write_manifest = S.write_blob desc.digest mb desc labels

    past_manifest :
        (r : Result (Unit {0})) (w : World)
        → J.encode_config config ≡ ok cb
        → J.encode_manifest manifest ≡ ok mb
        → (write_manifest w).0 ≡ r
        → Readable base config layer
            (after (r, (write_manifest w).1) (λ _. second config_desc cb clabels desc))
    past_manifest (err e) w ec em h = tt
    past_manifest (ok _) w ec em h =
        let w1 = (write_manifest w).1 in
        after_config (write_config w1).0 w1 ec em (I.written mb desc labels w refl h) refl

  module _ (I : IsReadable S) (base : Option Manifest) (config : ImageConfig)
      (layer : Descriptor) where
    abbrev layers : List Descriptor
    layers = commit_layers base layer

    abbrev conf : List ℕ → Descriptor
    conf cb = described C S J D D.docker_config cb

    abbrev write_both : List ℕ → List ℕ → M World (Descriptor × Text)
    write_both cb mb = do
      let desc = described C S J D D.docker_manifest mb
      S.write_blob desc.digest mb desc (manifest_labels (conf cb).digest layers)
      second (conf cb) cb (snapshot_label C S J D config) desc

    after_encode_manifest :
        (cb : List ℕ) (r : Result (List ℕ)) (w : World)
        → J.encode_config config ≡ ok cb
        → J.encode_manifest (record { config = conf cb; layers = layers }) ≡ r
        → Readable base config layer (after (r, w) (write_both cb))
    after_encode_manifest cb (err e) w ec em = tt
    after_encode_manifest cb (ok mb) w ec em =
        let labels = manifest_labels (conf cb).digest layers in
        past_manifest I base config layer labels (snapshot_label C S J D config) cb mb
          (write_manifest I base config layer labels (snapshot_label C S J D config) cb mb w).0 w ec
          em refl

    abbrev encode_rest : List ℕ → M World (Descriptor × Text)
    encode_rest cb = do
      mb ← lift (J.encode_manifest (record { config = conf cb; layers = layers }))
      write_both cb mb

    after_encode_config :
        (r : Result (List ℕ)) (w : World)
        → J.encode_config config ≡ r
        → Readable base config layer (after (r, w) encode_rest)
    after_encode_config (err e) w ec = tt
    after_encode_config (ok cb) w ec =
        after_encode_manifest cb (J.encode_manifest (record { config = conf cb; layers = layers }))
          w ec refl

    -- If the image's contents are written without an error, to a content store that keeps what is
    -- written, then the returned descriptor leads to the encoding of a manifest with the layers of the
    -- base image followed by the new one, and the manifest's configuration, which has the returned
    -- digest, to the encoding of the new configuration.
    pub write_contents_for_image-Readable :
        (w : World)
        → Readable base config layer (write_contents_for_image C S J D base config layer w)
    unfolding write_contents_for_image
    write_contents_for_image-Readable w = after_encode_config (J.encode_config config) w refl
