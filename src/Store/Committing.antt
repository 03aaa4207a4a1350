-- ===== src/Store/Committing.antt =====
-- pkg/ocistore/commit.go. `rootfs.CreateDiff` and the applier are parameters, and so are the platform
-- of the program and the clock.
pub mod Readable
use mysnapshotter.Prelude.{
  ℕ, zero, suc, ◌+◌, ◌/◌, ◌%◌, String, Bool, Option, none, some, List, [], ◌∷◌, ◌++◌, ltb,
  if◌then◌else◌, Text, codes, ◌==◌, length, message, is_not_found, is_already_exists, Result, ok,
  err,
}
use mysnapshotter.Prelude.Int.{ℤ, pos}
use mysnapshotter.Extractor.System.{M, pure, fail, ◌>>=◌, ◌>>◌, lift, named, attempt}
use mysnapshotter.Store.Registry.{Descriptor}
use mysnapshotter.Store.Containerd.{Labels, Containerd, Image, driver, label_snapshot_img_ref}
use mysnapshotter.Store.Content.{
  Manifest, RunConfig, History, ImageConfig, MediaTypes, Json, ContentStore, read_image_config,
  read_manifest,
}
use mysnapshotter.Store.Snapshots.{checked, set_label, label_of}
use mysnapshotter.Store.Options.{apply_options}
use mysnapshotter.Store.Commits.{
  ImgOpts, CommitImgOpt, no_config, no_commit_opts, generate_commit_image_config, manifest_labels,
  commit_layers,
}
use mysnapshotter.Store.Unpacking.{Unpacker, leased_strictly, unpack}
use mysnapshotter.Store.Mounts.{Clock}

-- `images.MediaTypeDockerSchema2Config` and its siblings, `rootfs.CreateDiff`, for which no option
-- can be set, and `Apply`.
pub record Differ (C : Containerd) : Type 0 where
  pub docker_config : Text
  pub docker_manifest : Text
  pub docker_layer_gzip : Text
  pub new_diff : Text → C.World → Result Descriptor × C.World
  pub apply_diff : Descriptor → C.Mounts → C.World → Result Descriptor × C.World

-- The annotations that a descriptor made here has.
abbrev pub bare_descriptor : Text → Text → ℤ → Descriptor
bare_descriptor media_type digest size = record {
  media_type = media_type;
  digest = digest;
  size = size;
  annotations = λ k. none;
}

module _ (C : Containerd) (S : ContentStore C.World) (J : Json) (D : Differ C) where
  open C use {World}

  -- `createDiff`.
  unfoldable pub create_diff : Text → M World (Descriptor × Text)
  create_diff key = do
    desc ← D.new_diff key
    (size, labels) ← S.content_info desc.digest
    (elim (label_of (codes "containerd.io/uncompressed") labels) [
      | none ↦ fail (message "invalid differ response with no diffID")
      | some id ↦ do
        diff_id ← lift (S.parse_digest id)
        pure (bare_descriptor D.docker_layer_gzip desc.digest size, diff_id)
    ])

  abbrev pub described : Text → List ℕ → Descriptor
  described media_type bytes = bare_descriptor media_type (S.digest_of bytes) (pos (length bytes))

  -- The label that keeps the snapshot of the image's chain of layers.
  abbrev pub snapshot_label : ImageConfig → Labels
  snapshot_label config =
      (codes "containerd.io/gc.ref.snapshot." ++ driver, C.chain_id config.diff_ids) ∷ []

  -- `writeContentsForImage`: the manifest, and then the configuration.
  unfoldable pub write_contents_for_image :
      Option Manifest → ImageConfig → Descriptor → M World (Descriptor × Text)
  unfolding manifest_labels
  write_contents_for_image base config layer = do
    config_json ← lift (J.encode_config config)
    let config_desc = described D.docker_config config_json
    let layers = commit_layers base layer
    manifest_json ← lift (J.encode_manifest (record { config = config_desc; layers = layers }))
    let manifest_desc = described D.docker_manifest manifest_json
    S.write_blob manifest_desc.digest manifest_json manifest_desc
        (manifest_labels config_desc.digest layers)
    S.write_blob config_desc.digest config_json config_desc (snapshot_label config)
    pure (manifest_desc, config_desc.digest)

  -- `applyDiffLayer`: a snapshot that is there already is no error.
  unfoldable pub apply_diff_layer : Text → Text → Descriptor → M World (Unit {0})
  apply_diff_layer name key layer = do
    mounts ← C.snapshot_mounts key
    D.apply_diff layer mounts
    r ← attempt (
        C.snapshot_commit name key
          (C.with_labels ((codes "containerd.io/snapshot.ref", name) ∷ []) ∷ []))
    (elim r [ ok _ ↦ pure tt | err e ↦ if is_already_exists e then pure tt else fail e ])

  module _ (initiated : Bool) (T : MediaTypes) (K : Clock World) (U : Unpacker C)
      (goarch goos : Text) where
    -- The manifest of a pair that `ReadManifest` may have found.
    abbrev pub manifest_of : Option (Manifest × Descriptor) → Option Manifest
    manifest_of none = none
    manifest_of (some (m, _)) = some m

    -- The configuration and the manifest of the image that the snapshot was made for.
    unfoldable pub read_base : Option Text → M World (ImageConfig × Option Manifest)
    unfolding read_image_config read_manifest
    read_base none = pure (no_config, none)
    read_base (some ref) = do
      img ← C.image_get ref
      (config, _) ← read_image_config S T J img
      m ← read_manifest S T J img
      pure (config, manifest_of m)

    -- The record of the image is updated, or created if there is none.
    unfoldable pub store_commit : Image → M World (Unit {0})
    store_commit img = do
      r ← attempt (C.image_update img [])
      (elim r [
        | ok _ ↦ pure tt
        | err e ↦
            if is_not_found e
            then (do named "failed to create new image" (C.image_create img); pure tt)
            else fail e
      ])

    -- `time.Now`.
    abbrev pub time_now : M World ℤ
    time_now w = let (t, w') = K.now w in (ok t, w')

    -- `Commit` under its lease.
    unfoldable pub commit_leased : Text → ImgOpts → M World Image
    unfolding read_base create_diff generate_commit_image_config apply_diff_layer
        write_contents_for_image store_commit unpack
    commit_leased key opts = do
      info ← C.snapshot_stat key
      (base, manifest) ← read_base (label_of label_snapshot_img_ref info.labels)
      (layer, diff_id) ← named "failed to export layer" (create_diff key)
      now ← time_now
      let config = generate_commit_image_config goarch goos now base diff_id opts
      named "failed to apply diff" (apply_diff_layer (C.chain_id config.diff_ids) key layer)
      (desc, _) ← write_contents_for_image manifest config layer
      let img : Image = record { name = opts.ref; target = desc; labels = opts.labels }
      store_commit img
      unpack C U (some img) []
      pure img

    -- `Commit`.
    unfoldable pub commit : Text → List (CommitImgOpt C) → M World Image
    unfolding leased_strictly commit_leased apply_options
    commit key opts = checked C initiated (do
      o ← lift (apply_options opts (no_commit_opts C))
      leased_strictly C initiated "failed to create lease for commit" (commit_leased key o.i_opts))
