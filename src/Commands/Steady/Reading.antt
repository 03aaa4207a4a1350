-- ===== src/Commands/Steady/Reading.antt =====
-- The readers of ociStore.go keep an invariant that the libraries keep.
use mysnapshotter.Prelude.{
  ℕ, Option, none, some, List, [], ◌∷◌, if◌then◌else◌, Text, Result, ok, err,
}
use mysnapshotter.Extractor.System.{M, pure, ◌>>=◌, lift}
use mysnapshotter.Extractor.Maintaining.{
  Whatever, Maintains, pure-Maintains, lift-Maintains, bind-Maintains, settled-Maintains,
  if-Maintains,
}
use mysnapshotter.Extractor.Confined.{any_ok}
use mysnapshotter.Store.Registry.{Descriptor}
use mysnapshotter.Store.Containerd.{Containerd, Image}
use mysnapshotter.Store.Content.{
  Manifest, ContentStore, read_image_config, read_index, find_manifest, read_platform_manifest,
  read_manifest,
}
use mysnapshotter.Commands.{Host, World}
use mysnapshotter.Commands.Steady.{IsSteady}

module _ (H : Host) (Names Refs : Text → Type 0) (I : World H → Type 0)
    (S : IsSteady H Names Refs I) where
  abbrev C : Containerd
  C = H.containerd

  abbrev B : ContentStore (World H)
  B = H.contents

  pub read_image_config-Maintains :
      (img : Image) → Maintains I Whatever (read_image_config B H.media_types H.json img)
  unfolding read_image_config
  read_image_config-Maintains img = bind-Maintains I Whatever (S.config_of img) (λ d _.
      bind-Maintains I Whatever (S.read_blob d) (λ p _.
        bind-Maintains I Whatever (lift-Maintains I (H.json.decode_config p) (any_ok _))
          (λ c _. pure-Maintains I (c, d) tt)))

  read_index-Maintains :
      (img : Image) → Maintains I Whatever (read_index B H.media_types H.json img)
  unfolding read_index
  read_index-Maintains img =
      if-Maintains I (H.media_types.is_index img.target.media_type)
        (bind-Maintains I Whatever (S.read_blob img.target) (λ b _.
          bind-Maintains I Whatever (lift-Maintains I (H.json.decode_index b) (any_ok _))
            (λ ms _. pure-Maintains I (some (ms, img.target)) tt)))
        (pure-Maintains I none tt)

  abbrev passed :
      M (World H) (Option (Manifest × Descriptor))
      → Descriptor
      → Descriptor
      → Result (List ℕ)
      → M (World H) (Option (Manifest × Descriptor))
  passed rest config_desc d r = elim r [
    | err _ ↦ rest
    | ok b ↦ do
      mani ← lift (H.json.decode_manifest b)
      if B.same_descriptor config_desc mani.config then pure (some (mani, d)) else rest
  ]

  find_manifest-Maintains :
      (config_desc : Descriptor) (ds : List Descriptor)
      → Maintains I Whatever (find_manifest B H.media_types H.json config_desc ds)
  unfolding find_manifest
  find_manifest-Maintains config_desc [] = pure-Maintains I none tt
  find_manifest-Maintains config_desc (d ∷ ds) =
      let rest = find_manifest-Maintains config_desc ds in
      settled-Maintains I Whatever
        (passed (find_manifest B H.media_types H.json config_desc ds) config_desc d) (S.read_blob d)
        (λ b _.
          bind-Maintains I Whatever (lift-Maintains I (H.json.decode_manifest b) (any_ok _))
            (λ mani _.
              if-Maintains I (B.same_descriptor config_desc mani.config)
                (pure-Maintains I (some (mani, d)) tt) rest))
        (λ e. rest)

  read_platform_manifest-Maintains :
      (img : Image) (o : Option (List Descriptor × Descriptor))
      → Maintains I Whatever (read_platform_manifest B H.media_types H.json img o)
  unfolding read_platform_manifest
  read_platform_manifest-Maintains img none = pure-Maintains I none tt
  read_platform_manifest-Maintains img (some (ms, _)) =
      bind-Maintains I Whatever (S.config_of img) (λ c _. find_manifest-Maintains c ms)

  pub read_manifest-Maintains :
      (img : Image) → Maintains I Whatever (read_manifest B H.media_types H.json img)
  unfolding read_manifest
  read_manifest-Maintains img =
      if-Maintains I (H.media_types.is_manifest img.target.media_type)
        (bind-Maintains I Whatever (S.read_blob img.target) (λ b _.
          bind-Maintains I Whatever (lift-Maintains I (H.json.decode_manifest b) (any_ok _))
            (λ mani _. pure-Maintains I (some (mani, img.target)) tt)))
        (if-Maintains I (H.media_types.is_index img.target.media_type)
          (bind-Maintains I Whatever (read_index-Maintains img)
            (λ o _. read_platform_manifest-Maintains img o))
          (pure-Maintains I none tt))
