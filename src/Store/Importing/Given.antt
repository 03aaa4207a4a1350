-- ===== src/Store/Importing/Given.antt =====
-- The name that the annotations of an archive's manifest give its image, and what is skipped.
use mysnapshotter.Prelude.{
  Bool, true, false, ◌||◌, not, Option, none, some, [], ◌∷◌, ◌≡◌, refl, sym, ◌∙◌, arith, is_some,
  if◌then◌else◌, Text, ◌==◌, text_dec,
}

-- The name that two annotations give, of the image and of its reference, with the function for
-- references: the first that is there and not empty, the reference as the function changes it.
abbrev pub Given : Option Text → Option Text → Option (Text → Text) → Text → Type 0
Given (some (c ∷ cs)) _ _ n = n ≡ c ∷ cs
Given _ (some (c ∷ cs)) none n = n ≡ c ∷ cs
Given _ (some (c ∷ cs)) (some f) n = n ≡ f (c ∷ cs)
Given _ _ _ n = n ≡ []

pub Given-unique :
    (image ref : Option Text) (t : Option (Text → Text)) (n k : Text)
    → Given image ref t n
    → Given image ref t k
    → n ≡ k
Given-unique (some (c ∷ cs)) ref t n k g h = g ∙ sym h
Given-unique (some []) none t n k g h = g ∙ sym h
Given-unique (some []) (some []) t n k g h = g ∙ sym h
Given-unique (some []) (some (c ∷ cs)) none n k g h = g ∙ sym h
Given-unique (some []) (some (c ∷ cs)) (some f) n k g h = g ∙ sym h
Given-unique none none t n k g h = g ∙ sym h
Given-unique none (some []) t n k g h = g ∙ sym h
Given-unique none (some (c ∷ cs)) none n k g h = g ∙ sym h
Given-unique none (some (c ∷ cs)) (some f) n k g h = g ∙ sym h

abbrev or_empty : Option Text → Text
or_empty o = elim o [ none ↦ [] | some v ↦ v ]

abbrev chosen : Option Text → Option Text → Option (Text → Text) → Text
chosen image ref t = if not (or_empty image == []) then or_empty image else elim t [
  | none ↦ or_empty ref
  | some f ↦ if or_empty ref == [] then or_empty ref else f (or_empty ref)
]

pub chosen-Given :
    (image ref : Option Text) (t : Option (Text → Text)) → Given image ref t (chosen image ref t)
unfolding text_dec
chosen-Given (some (c ∷ cs)) ref t = refl
chosen-Given (some []) none none = refl
chosen-Given (some []) none (some f) = refl
chosen-Given (some []) (some []) none = refl
chosen-Given (some []) (some []) (some f) = refl
chosen-Given (some []) (some (c ∷ cs)) none = refl
chosen-Given (some []) (some (c ∷ cs)) (some f) = refl
chosen-Given none none none = refl
chosen-Given none none (some f) = refl
chosen-Given none (some []) none = refl
chosen-Given none (some []) (some f) = refl
chosen-Given none (some (c ∷ cs)) none = refl
chosen-Given none (some (c ∷ cs)) (some f) = refl

-- What is skipped, of a subject and a test of a name.
abbrev pub is_left_out : Option Text → Option (Text → Bool) → Text → Bool
is_left_out subject skip n = is_some subject || elim skip [ none ↦ false | some f ↦ f n ]

pub left_out-false :
    (subject : Option Text) (skip : Option (Text → Bool)) (n : Text)
    → not (is_left_out subject skip n) ≡ true
    → (subject ≡ none) × ((f : Text → Bool) → skip ≡ some f → f n ≡ false)
left_out-false (some t) skip n h = absurd (cc)
left_out-false none none n h = (refl, λ f e. absurd (cc))
left_out-false none (some g) n h = (refl, λ f e. ground arith)

pub left_out_of :
    (subject : Option Text) (skip : Option (Text → Bool)) (n : Text)
    → subject ≡ none
    → ((f : Text → Bool) → skip ≡ some f → f n ≡ false)
    → not (is_left_out subject skip n) ≡ true
left_out_of (some t) skip n e h = absurd (cc)
left_out_of none none n e h = refl
left_out_of none (some g) n e h = rw (h g refl) refl
