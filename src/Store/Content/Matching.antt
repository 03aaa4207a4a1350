-- ===== src/Store/Content/Matching.antt =====
-- `ReadManifest` of pkg/ocistore/ociStore.go: which manifest it finds.
use mysnapshotter.Prelude.{
  ℕ, Bool-cases, inl, inr, true, Option, none, some, List, [], ◌∷◌, ◌≡◌, refl, Any, Result, ok, err,
  if◌then◌else◌,
}
use mathlib.Core.Path.{subst}
use mysnapshotter.Extractor.System.{M, pure, after, ◌>>=◌, lift}
use mysnapshotter.Store.Registry.{Descriptor}
use mysnapshotter.Store.Containerd.{Image}
use mysnapshotter.Store.Content.{
  Manifest, MediaTypes, Json, ContentStore, find_manifest, read_platform_manifest,
}

module _ {World : Type 0} (S : ContentStore World) (T : MediaTypes) (J : Json) where
  -- A manifest that a descriptor of the list leads to, and that names the configuration.
  abbrev pub IsMatch : Descriptor → Manifest → Descriptor → Descriptor → Type 0
  IsMatch config m d d' =
      (d ≡ d')
      × (S.same_descriptor config m.config ≡ true)
      × ((w : World) × (b : List ℕ) × ((S.read_blob d w).0 ≡ ok b) × (J.decode_manifest b ≡ ok m))

  abbrev pub Found :
      Descriptor → List Descriptor → Result (Option (Manifest × Descriptor)) × World → Type 0
  Found config ds (err e, w) = Unit
  Found config ds (ok none, w) = Unit
  Found config ds (ok (some (m, d)), w) = Any (IsMatch config m d) ds

  abbrev Outcome : Type 0
  Outcome = Result (Option (Manifest × Descriptor)) × World

  later :
      (config d : Descriptor) (ds : List Descriptor) (x : Outcome)
      → Found config ds x
      → Found config (d ∷ ds) x
  later config d ds (err e, w) h = tt
  later config d ds (ok none, w) h = tt
  later config d ds (ok (some p), w) h = inr h

  abbrev chosen :
      Descriptor
      → Descriptor
      → M World (Option (Manifest × Descriptor))
      → Manifest
      → M World (Option (Manifest × Descriptor))
  chosen config d rest m = if S.same_descriptor config m.config then pure (some (m, d)) else rest

  chosen-Found :
      (config d : Descriptor) (ds : List Descriptor)
      (rest : M World (Option (Manifest × Descriptor))) (b : List ℕ) (r : Result Manifest)
      (w0 w : World)
      → ((w : World) → Found config ds (rest w))
      → (S.read_blob d w0).0 ≡ ok b
      → J.decode_manifest b ≡ r
      → Found config (d ∷ ds) (after (r, w) (chosen config d rest))
  chosen-Found config d ds rest b (err e) w0 w k read dec = tt
  chosen-Found config d ds rest b (ok m) w0 w k read dec =
      elim (Bool-cases (S.same_descriptor config m.config)) [
        | inl y ↦ rw y (inl (refl, y, (w0, b, read, dec)))
        | inr y ↦ rw y (later config d ds (rest w) (k w))
      ]

  abbrev decoded :
      Descriptor
      → Descriptor
      → M World (Option (Manifest × Descriptor))
      → Result (List ℕ)
      → M World (Option (Manifest × Descriptor))
  decoded config d rest r = elim r [
    | err _ ↦ rest
    | ok b ↦ do mani ← lift (J.decode_manifest b); chosen config d rest mani
  ]

  decoded-Found :
      (config d : Descriptor) (ds : List Descriptor)
      (rest : M World (Option (Manifest × Descriptor))) (r : Result (List ℕ)) (w0 w : World)
      → ((w : World) → Found config ds (rest w))
      → (S.read_blob d w0).0 ≡ r
      → Found config (d ∷ ds) (decoded config d rest r w)
  decoded-Found config d ds rest (err e) w0 w k read = later config d ds (rest w) (k w)
  decoded-Found config d ds rest (ok b) w0 w k read =
      chosen-Found config d ds rest b (J.decode_manifest b) w0 w k read refl

  find_manifest-Found :
      (config : Descriptor) (ds : List Descriptor) (w : World)
      → Found config ds (find_manifest S T J config ds w)
  unfolding find_manifest
  find_manifest-Found config [] w = tt
  find_manifest-Found config (d ∷ ds) w =
      let x = S.read_blob d w in
      decoded-Found config d ds (find_manifest S T J config ds) x.0 w x.1
        (λ w'. find_manifest-Found config ds w') refl

  -- The manifest that is read for an image with an index is that of one of the index's descriptors,
  -- decoded from the blob that this descriptor leads to, and its configuration is the one that
  -- containerd gives for the store's platform.
  pub read_platform_manifest-Found :
      (img : Image) (ds : List Descriptor) (index : Descriptor) (w : World) {m : Manifest}
      {d : Descriptor} {w' : World}
      → read_platform_manifest S T J img (some (ds, index)) w ≡ (ok (some (m, d)), w')
      → (config : Descriptor) × ((S.config_of img w).0 ≡ ok config) × Any (IsMatch config m d) ds
  unfolding read_platform_manifest
  read_platform_manifest-Found img ds index w {m} {d} {w'} h =
      by_config (S.config_of img w).0 (S.config_of img w).1 refl h
    where
      by_config :
          (r : Result Descriptor) (w1 : World)
          → (S.config_of img w).0 ≡ r
          → after (r, w1) (λ c. find_manifest S T J c ds) ≡ (ok (some (m, d)), w')
          → (config : Descriptor) × ((S.config_of img w).0 ≡ ok config)
            × Any (IsMatch config m d) ds
      by_config (err e) w1 e1 h1 = absurd (cc)
      by_config (ok c) w1 e1 h1 = (c, e1, subst (Found c ds) h1 (find_manifest-Found c ds w1))
