-- ===== src/Paths/Below.antt =====
-- Paths below a directory: what Join and Dir make of a rooted directory and a name that does not climb.
use mysnapshotter.Prelude.{
  ◌⊎◌, ◌≡◌, refl, sym, ap, ◌∙◌, Bool, true, false, Bool-cases, inl, inr, List, [], ◌∷◌, ◌++◌,
  reverse, append-nil, append_assoc, arith, any, eqb, All, All-of_append, Text, text_dec, ◌==◌,
  ◌||◌, ℕ,
}
use mathlib.Core.Path.{subst}
use mathlib.Core.List.{reverse-append}
use mysnapshotter.Paths.{
  slash, dot, dot_dot, is_abs, push_byte, split_slash, step, resolve, render, components, clean,
  join, dir, drop_name,
}
use mysnapshotter.Paths.Components.{IsPlain, AllPlain, resolve-append, components-render}
use mysnapshotter.Paths.Parents.{dir-render}
use mysnapshotter.Paths.Rooted.{components-AllPlain, clean-rooted}

-- A piece that does not lead up.
abbrev pub Stays : Text → Type 0
Stays p = (p == dot_dot) ≡ false

-- A `..` stands in the name.
unfoldable pub climbs : Text → Bool
unfolding split_slash
climbs name = any (λ p. p == dot_dot) (split_slash name)

abbrev pub IsClimbless : Text → Type 0
IsClimbless name = climbs name ≡ false

Stays-pieces : (ps : List Text) → any (λ p. p == dot_dot) ps ≡ false → All Stays ps
Stays-pieces [] h = tt
Stays-pieces (p ∷ ps) h = ground (arith, Stays-pieces ps)

-- The second path is the first or in it.
abbrev pub IsBelow : Text → Text → Type 0
IsBelow a b = (rest : List Text) × (components b ≡ components a ++ rest)

split_slash-cons : (s : Text) → (p : Text) × (ps : List Text) × (split_slash s ≡ p ∷ ps)
unfolding split_slash
split_slash-cons [] = ([], [], refl)
split_slash-cons (c ∷ s) =
    let (p, ps, e) = split_slash-cons s in
    elim (Bool-cases (eqb c slash)) [
      | inl y ↦ ([], split_slash s, rw y refl)
      | inr y ↦ (c ∷ p, ps, rw (y, e) refl)
    ]

climbless-Stays : (name : Text) → IsClimbless name → All Stays (split_slash name)
unfolding climbs
climbless-Stays name h = Stays-pieces (split_slash name) h

push_byte-append :
    (c : ℕ) (s : Text) (ps : List Text)
    → push_byte c (split_slash s ++ ps) ≡ push_byte c (split_slash s) ++ ps
push_byte-append c s ps = let (q, qs, e) = split_slash-cons s in rw e refl

-- A slash splits.
split_slash-slash : (s t : Text) → split_slash (s ++ (slash ∷ t)) ≡ split_slash s ++ split_slash t
unfolding split_slash
split_slash-slash [] t = refl
split_slash-slash (c ∷ s) t = elim (Bool-cases (eqb c slash)) [
  | inl y ↦ rw (y, split_slash-slash s t) refl
  | inr y ↦ rw (y, split_slash-slash s t) (push_byte-append c s (split_slash t))
]

-- Pieces that do not lead up are only added.
resolve-grows :
    (st ps : List Text) → All Stays ps → (more : List Text) × (resolve true st ps ≡ more ++ st)
unfolding resolve step
resolve-grows st [] h = ([], refl)
resolve-grows st (p ∷ ps) h = elim (Bool-cases (p == [] || p == dot)) [
  | inl y ↦ let (more, e) = resolve-grows st ps h.1 in (more, rw y e)
  | inr y ↦
      let (more, e) = resolve-grows (p ∷ st) ps h.1 in
      (more ++ (p ∷ []), rw (y, h.0) (e ∙ sym (append_assoc more (p ∷ []) st)))
]

abs-append : (a b : Text) → is_abs a ≡ true → is_abs (a ++ b) ≡ true
abs-append [] b h = absurd (cc)
abs-append (c ∷ a) b h = h

join-rooted :
    (root name : Text) → is_abs root ≡ true → join root name ≡ clean (root ++ (slash ∷ name))
unfolding join text_dec
join-rooted [] name h = absurd (cc)
join-rooted (c ∷ s) name h = refl

-- The pieces of a rooted directory and of a name in it.
components-slash :
    (root name : Text)
    → is_abs root ≡ true
    → components (root ++ (slash ∷ name))
      ≡ reverse (resolve true (resolve true [] (split_slash root)) (split_slash name))
unfolding components
components-slash root name h =
    rw (abs-append root (slash ∷ name) h, split_slash-slash root name)
      (ap reverse (resolve-append true [] (split_slash root) (split_slash name)))

components-rooted :
    (root : Text)
    → is_abs root ≡ true
    → components root ≡ reverse (resolve true [] (split_slash root))
unfolding components
components-rooted root h = rw h refl

-- What Join makes of a rooted directory and such a name.
pub join-below :
    (root name : Text)
    → is_abs root ≡ true
    → IsClimbless name
    → (rest : List Text) × (join root name ≡ render true (components root ++ rest))
      × AllPlain (components root ++ rest)
join-below root name h c =
    let stay : All Stays (split_slash name) = climbless-Stays name c in
    let (more, e) = resolve-grows (resolve true [] (split_slash root)) (split_slash name) stay in
    let path : Text = root ++ (slash ∷ name) in
    let same : components path ≡ components root ++ reverse more =
      components-slash root name h
      ∙ ap reverse e
      ∙ reverse-append more (resolve true [] (split_slash root))
      ∙ ap (λ cs. cs ++ reverse more) (sym (components-rooted root h)) in
    (
      reverse more,
      join-rooted root name h ∙ clean-rooted path (abs-append root _ h) ∙ ap (render true) same,
      subst AllPlain same (components-AllPlain path (abs-append root _ h)),
    )

-- It is the directory or below it.
pub join-IsBelow :
    (root name : Text) → is_abs root ≡ true → IsClimbless name → IsBelow root (join root name)
join-IsBelow root name h c =
    let (rest, e, p) = join-below root name h c in
    (rest, ap components e ∙ components-render true _ p)

snoc_cases : (xs : List Text) → (xs ≡ []) ⊎ ((ys : List Text) × (y : Text) × (xs ≡ ys ++ (y ∷ [])))
snoc_cases [] = inl refl
snoc_cases (x ∷ xs) = elim (snoc_cases xs) [
  | inl e ↦ inr ([], x, ap (◌∷◌ x) e)
  | inr (ys, y, e) ↦ inr (x ∷ ys, y, ap (◌∷◌ x) e)
]

components-dir_top : components (dir (render true [])) ≡ []
unfolding dir clean drop_name components resolve split_slash render text_dec
components-dir_top = refl

components-dir :
    (cs : List Text) (c : Text)
    → AllPlain (cs ++ (c ∷ []))
    → components (dir (render true (cs ++ (c ∷ [])))) ≡ cs
components-dir cs c h =
    let (plain, last) = All-of_append IsPlain cs (c ∷ []) h in
    ap components (dir-render true cs c plain last.0) ∙ components-render true cs plain

-- A rooted path lies in its parent.
parent-IsBelow :
    (cs : List Text)
    → AllPlain cs
    → (more : List Text) × (cs ≡ components (dir (render true cs)) ++ more)
parent-IsBelow cs h = elim (snoc_cases cs) [
  | inl n ↦ ([], rw n (sym (ap (λ ds. ds ++ []) components-dir_top)))
  | inr (front, c, f) ↦ (
    c ∷ [],
    f ∙ ap (λ ds. ds ++ (c ∷ [])) (sym (rw f (components-dir front c (subst AllPlain f h)))),
  )
]

-- The parent of such a path is in the directory, or a directory that it lies in.
pub dir-join-IsBelow :
    (root name : Text)
    → is_abs root ≡ true
    → IsClimbless name
    → IsBelow root (dir (join root name)) ⊎ IsBelow (dir (join root name)) root
dir-join-IsBelow root name h c =
    let (rest, e, p) = join-below root name h c in
    elim (snoc_cases rest) [
      | inr (front, d, f) ↦
          let cs : List Text = components root in
          let longer : cs ++ rest ≡ (cs ++ front) ++ (d ∷ []) =
            ap (λ r. cs ++ r) f ∙ sym (append_assoc cs front (d ∷ [])) in
          inl (
            front,
            ap (λ q. components (dir q)) (e ∙ ap (render true) longer)
                ∙ components-dir (cs ++ front) d (subst AllPlain longer p),
          )
      | inl n ↦
          let here : join root name ≡ render true (components root) =
            e ∙ ap (render true) (ap (λ r. components root ++ r) n ∙ append-nil _) in
          let (more, f) = parent-IsBelow (components root) (components-AllPlain root h) in
          inr (more, f ∙ ap (λ q. components (dir q) ++ more) (sym here))
    ]

pub join-is_abs : (root name : Text) → is_abs root ≡ true → is_abs (join root name) ≡ true
unfolding render
join-is_abs root name h =
    ap is_abs
      (join-rooted root name h ∙ clean-rooted (root ++ (slash ∷ name)) (abs-append root _ h))
