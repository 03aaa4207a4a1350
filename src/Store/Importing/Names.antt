-- ===== src/Store/Importing/Names.antt =====
-- Which images `importFunc` of pkg/ocistore/import.go makes of an archive's index.
use mysnapshotter.Prelude.{
  Bool, Bool-cases, inl, inr, true, false, ◌⊎◌, not, Option, none, some, List, [], ◌∷◌, ◌≡◌, ◌↔◌,
  refl, sym, Any, Any-append_left, Any-append_right, Any-of_append, if◌then◌else◌, Text, ◌==◌,
}
use mathlib.Core.Path.{subst}
use mysnapshotter.Store.Registry.{Descriptor}
use mysnapshotter.Store.Containerd.{Containerd, Image}
use mysnapshotter.Store.Archives.{Archive, ImportConfig}
use mysnapshotter.Store.Importing.{import_image_name, image_named, manifest_images, index_images}
use mysnapshotter.Store.Importing.Given.{
  Given, Given-unique, chosen-Given, is_left_out, left_out-false, left_out_of,
}

module _ (C : Containerd) (A : Archive C.World) (cfg : ImportConfig C A) where
  -- The name that a manifest gives its image by its annotations.
  abbrev name_of : Descriptor → Text
  name_of m = import_image_name C A m.annotations cfg.image_ref_t

  -- The annotations of the manifest give the name.
  abbrev pub IsGiven : Descriptor → Text → Type 0
  IsGiven m =
      Given (m.annotations A.annotation_image_name) (m.annotations A.annotation_ref_name)
        cfg.image_ref_t

  name_of-IsGiven : (m : Descriptor) → IsGiven m (name_of m)
  unfolding import_image_name
  name_of-IsGiven m =
      chosen-Given (m.annotations A.annotation_image_name) (m.annotations A.annotation_ref_name)
        cfg.image_ref_t

  IsGiven-name_of : (m : Descriptor) (n : Text) → IsGiven m n → n ≡ name_of m
  IsGiven-name_of m n h =
      Given-unique (m.annotations A.annotation_image_name) (m.annotations A.annotation_ref_name)
        cfg.image_ref_t n (name_of m) h (name_of-IsGiven m)

  -- A manifest whose digest names an image too: it is not the subject of another, and the name that its
  -- annotations give is not skipped.
  abbrev pub IsReferred : Descriptor → Type 0
  IsReferred m =
      (m.annotations A.annotation_manifest_subject ≡ none)
      × ((f : Text → Bool) (n : Text) → cfg.skip_dgst_ref ≡ some f → IsGiven m n → f n ≡ false)

  -- A manifest makes an image with a name: by its annotations, or by its digest.
  abbrev pub Makes : Text → Descriptor → Descriptor → Type 0
  Makes name target m =
      (m ≡ target)
      × ((name == []) ≡ false)
      × (IsGiven m name
          ⊎ ((f : Text → Text) × (cfg.dgst_ref_t ≡ some f) × (name ≡ f m.digest) × IsReferred m))

  -- An image of the list has the name and the target.
  abbrev pub Stands : Text → Descriptor → List Image → Type 0
  Stands name target imgs = Any (λ img. (img.name ≡ name) × (img.target ≡ target)) imgs

  named-Stands :
      (n name : Text) (m target : Descriptor)
      → Stands name target (image_named C A n m)
      → (m ≡ target) × ((name == []) ≡ false) × (name ≡ n)
  named-Stands n name m target h = elim (Bool-cases (n == [])) [
    | inl y ↦ absurd (empty (subst (λ b. Stands name target (if b then [] else image)) y h))
    | inr y ↦ full (subst (λ b. Stands name target (if b then [] else image)) y h) y
  ]
    where
      image : List Image
      image = record { name = n; target = m; labels = [] } ∷ []

      empty : ⊥ → ⊥
      empty x = x

      full :
          Stands name target image
          → (n == []) ≡ false
          → (m ≡ target) × ((name == []) ≡ false) × (name ≡ n)
      full (inl (a, b)) y = (b, subst (λ t. (t == []) ≡ false) a y, sym a)
      full (inr x) y = absurd x

  Stands-named :
      (n name : Text) (m target : Descriptor)
      → m ≡ target
      → (name == []) ≡ false
      → name ≡ n
      → Stands name target (image_named C A n m)
  Stands-named n name m target a b c = rw (subst (λ t. (t == []) ≡ false) c b) (inl (sym c, a))

  abbrev by_digest : Option (Text → Text) → Descriptor → List Image
  by_digest d m = elim d [ none ↦ [] | some f ↦ image_named C A (f m.digest) m ]

  digest-Makes :
      (d : Option (Text → Text)) (skip : Bool) (name : Text) (m target : Descriptor)
      → Stands name target (if skip then [] else by_digest d m)
      → (m ≡ target)
        × ((name == []) ≡ false)
        × ((f : Text → Text) × (d ≡ some f) × (name ≡ f m.digest) × (not skip ≡ true))
  digest-Makes d true name m target h = absurd h
  digest-Makes none false name m target h = absurd h
  digest-Makes (some f) false name m target h =
      let (a, b, c) = named-Stands (f m.digest) name m target h in (a, b, (f, refl, c, refl))

  digest-Stands :
      (d : Option (Text → Text)) (skip : Bool) (name : Text) (m target : Descriptor)
      (f : Text → Text)
      → m ≡ target
      → (name == []) ≡ false
      → d ≡ some f
      → name ≡ f m.digest
      → not skip ≡ true
      → Stands name target (if skip then [] else by_digest d m)
  digest-Stands d true name m target f a b e c k = absurd (cc)
  digest-Stands d false name m target f a b e c k =
      rw e (Stands-named (f m.digest) name m target a b c)

  abbrev is_skipped : Descriptor → Bool
  is_skipped m =
      is_left_out (m.annotations A.annotation_manifest_subject) cfg.skip_dgst_ref (name_of m)

  IsReferred-kept : (m : Descriptor) → IsReferred m → not (is_skipped m) ≡ true
  IsReferred-kept m h =
      left_out_of (m.annotations A.annotation_manifest_subject) cfg.skip_dgst_ref (name_of m) h.0
        (λ f e. h.1 f (name_of m) e (name_of-IsGiven m))

  kept-IsReferred : (m : Descriptor) → not (is_skipped m) ≡ true → IsReferred m
  kept-IsReferred m k =
      let (a, b) =
        left_out-false (m.annotations A.annotation_manifest_subject) cfg.skip_dgst_ref (name_of m)
          k in
      (a, λ f n e g. rw (IsGiven-name_of m n g) (b f e))

  manifest_images-Makes :
      (name : Text) (m target : Descriptor)
      → Stands name target (manifest_images C A cfg m)
      → Makes name target m
  unfolding manifest_images
  manifest_images-Makes name m target h =
      elim (Any-of_append _ (image_named C A (name_of m) m) _ h) [
        | inl x ↦
            let (a, b, c) = named-Stands (name_of m) name m target x in
            (a, b, inl (subst (IsGiven m) (sym c) (name_of-IsGiven m)))
        | inr x ↦
            let (a, b, (f, d, e, k)) = digest-Makes cfg.dgst_ref_t (is_skipped m) name m target x in
            (a, b, inr (f, d, e, kept-IsReferred m k))
      ]

  manifest_images-Stands :
      (name : Text) (m target : Descriptor)
      → Makes name target m
      → Stands name target (manifest_images C A cfg m)
  unfolding manifest_images
  manifest_images-Stands name m target (a, b, inl c) =
      Any-append_left _ (image_named C A (name_of m) m) _
        (Stands-named (name_of m) name m target a b (IsGiven-name_of m name c))
  manifest_images-Stands name m target (a, b, inr (f, e, c, k)) =
      Any-append_right _ (image_named C A (name_of m) m) _
        (digest-Stands cfg.dgst_ref_t (is_skipped m) name m target f a b e c (IsReferred-kept m k))

  index_images-Makes :
      (name : Text) (target : Descriptor) (ms : List Descriptor)
      → Stands name target (index_images C A cfg ms)
      → Any (Makes name target) ms
  unfolding index_images
  index_images-Makes name target [] h = h
  index_images-Makes name target (m ∷ ms) h =
      elim (Any-of_append _ (manifest_images C A cfg m) (index_images C A cfg ms) h) [
        | inl x ↦ inl (manifest_images-Makes name m target x)
        | inr x ↦ inr (index_images-Makes name target ms x)
      ]

  index_images-Stands :
      (name : Text) (target : Descriptor) (ms : List Descriptor)
      → Any (Makes name target) ms
      → Stands name target (index_images C A cfg ms)
  unfolding index_images
  index_images-Stands name target [] h = h
  index_images-Stands name target (m ∷ ms) (inl x) =
      Any-append_left _ (manifest_images C A cfg m) (index_images C A cfg ms)
        (manifest_images-Stands name m target x)
  index_images-Stands name target (m ∷ ms) (inr x) =
      Any-append_right _ (manifest_images C A cfg m) (index_images C A cfg ms)
        (index_images-Stands name target ms x)

  -- An image with a name and a target is collected from an index exactly if the target is one of its
  -- manifests, the name is not empty, and it is one of two. The first is the image name of the
  -- manifest's annotations, or where that is missing or empty their reference name, as the function
  -- for references changes it if one is set. The second is what the function for digests makes of the
  -- manifest's digest, if one is set, the manifest is not the subject of another, and the test of
  -- what to skip, if one is set, does not hold for the first.
  pub index_images_iff :
      (name : Text) (target : Descriptor) (ms : List Descriptor)
      → Stands name target (index_images C A cfg ms) ↔ Any (Makes name target) ms
  index_images_iff name target ms =
      (index_images-Makes name target ms, index_images-Stands name target ms)
