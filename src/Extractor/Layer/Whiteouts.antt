-- ===== src/Extractor/Layer/Whiteouts.antt =====
-- `isParentWhiteout`: the loop over `Dir` visits every proper parent of the path.
use mysnapshotter.Prelude.{
  ℕ, zero, suc, ◌≤◌, ◌≡◌, refl, sym, ap, ◌∙◌, ◌↔◌, ◌⊎◌, inl, inr, Bool, true, false, ◌||◌, List, [],
  ◌∷◌, ◌++◌, append-nil, append_assoc, arith, if◌then◌else◌, Bool-cases, length, length-append,
  All-append, All-of_append, Text, text_dec, ◌==◌, ==_refl,
}
use mathlib.Core.Path.{subst}
use mysnapshotter.Paths.{dot, slash, render, components, dir, join_slash}
use mysnapshotter.Paths.Components.{IsPlain, AllPlain, components-render}
use mysnapshotter.Paths.Parents.{dir-render}
use mysnapshotter.Extractor.Layer.{parent_loop, is_parent_whiteout}

-- Some front of the names, not empty, is a whiteout as a path.
abbrev pub Hidden : Bool → (Text → Bool) → List Text → Type 0
Hidden r w cs =
    (d : Text) × (ds rest : List Text) × (cs ≡ (d ∷ ds) ++ rest) × (w (render r (d ∷ ds)) ≡ true)

abbrev is_top : Text → Bool
is_top d = d == dot || (d == (slash ∷ []) || d == [])

components-dot : (components dot ≡ []) × (components (slash ∷ []) ≡ []) × (components [] ≡ [])
unfolding components text_dec
components-dot = (refl, refl, refl)

components-top : (u : Text) → is_top u ≡ true → components u ≡ []
components-top u t = elim (text_dec u dot) [
  | yes e ↦ ap components e ∙ components-dot.0
  | no n ↦ elim (text_dec u (slash ∷ [])) [
    | yes e ↦ ap components e ∙ components-dot.1
    | no m ↦ let e : u ≡ [] = ground arith in ap components e ∙ components-dot.2
  ]
]

render-not_top :
    (r : Bool) (c : Text) (cs : List Text) → AllPlain (c ∷ cs) → is_top (render r (c ∷ cs)) ≡ false
render-not_top r c cs h = elim (Bool-cases (is_top (render r (c ∷ cs)))) [
  | inr f ↦ f
  | inl t ↦ absurd (cc (components-render r (c ∷ cs) h, components-top (render r (c ∷ cs)) t))
]

render-top : (r : Bool) → is_top (render r []) ≡ true
unfolding render text_dec
render-top true = refl
render-top false = refl

-- A list is empty or has a last element.
snoc_view : (cs : List Text) → (cs ≡ []) ⊎ ((ds : List Text) × (c : Text) × (cs ≡ ds ++ (c ∷ [])))
snoc_view [] = inl refl
snoc_view (c ∷ cs) = elim (snoc_view cs) [
  | inl e ↦ inr ([], c, ap (◌∷◌ c) e)
  | inr (ds, d, e) ↦ inr (c ∷ ds, d, ap (◌∷◌ c) e)
]

-- One round of the loop, at a path that has names.
parent_loop-step :
    (f : ℕ) (r : Bool) (w : Text → Bool) (d : Text) (ds : List Text)
    → AllPlain (d ∷ ds)
    → parent_loop (suc f) w (render r (d ∷ ds))
      ≡ (if w (render r (d ∷ ds)) then true else parent_loop f w (dir (render r (d ∷ ds))))
unfolding parent_loop
parent_loop-step f r w d ds h = rw (render-not_top r d ds h)

parent_loop-top : (f : ℕ) (r : Bool) (w : Text → Bool) → parent_loop f w (render r []) ≡ false
unfolding parent_loop
parent_loop-top zero r w = refl
parent_loop-top (suc f) r w = rw (render-top r)

Hidden-snoc :
    (r : Bool) (w : Text → Bool) (cs : List Text) (c : Text)
    → Hidden r w cs
    → Hidden r w (cs ++ (c ∷ []))
Hidden-snoc r w cs c (d, ds, rest, e, t) =
    (d, ds, rest ++ (c ∷ []), ap (λ l. l ++ (c ∷ [])) e ∙ append_assoc (d ∷ ds) rest (c ∷ []), t)

parent_loop-Hidden :
    (f : ℕ) (r : Bool) (w : Text → Bool) (cs : List Text)
    → AllPlain cs
    → parent_loop f w (render r cs) ≡ true
    → Hidden r w cs
parent_loop-Hidden zero r w cs h t = absurd (unfold parent_loop in cc t)
parent_loop-Hidden (suc f) r w [] h t = absurd (cc (parent_loop-top (suc f) r w))
parent_loop-Hidden (suc f) r w (d ∷ ds) h t = elim (Bool-cases (w (render r (d ∷ ds)))) [
  | inl now ↦ (d, ds, [], sym (append-nil (d ∷ ds)), now)
  | inr later ↦ elim (snoc_view (d ∷ ds)) [
    | inl e ↦ absurd (cc)
    | inr (es, c, e) ↦
        let (hes, hc) = All-of_append IsPlain es (c ∷ []) (subst AllPlain e h) in
        let up : dir (render r (d ∷ ds)) ≡ render r es =
          ap (λ l. dir (render r l)) e ∙ dir-render r es c hes hc.0 in
        let t' : parent_loop f w (render r es) ≡ true =
          ap (parent_loop f w) (sym up) ∙ (ground (arith, parent_loop-step f r w d ds h)) in
        subst (Hidden r w) (sym e) (Hidden-snoc r w es c (parent_loop-Hidden f r w es hes t'))
  ]
]

parent_loop_of_Hidden :
    (f : ℕ) (r : Bool) (w : Text → Bool) (cs : List Text)
    → AllPlain cs
    → length cs ≤ f
    → Hidden r w cs
    → parent_loop f w (render r cs) ≡ true
parent_loop_of_Hidden zero r w [] h l (a, as', rest, e, t) = absurd (cc)
parent_loop_of_Hidden zero r w (d ∷ ds) h l k = absurd (omega arith)
parent_loop_of_Hidden (suc f) r w [] h l (a, as', rest, e, t) = absurd (cc)
parent_loop_of_Hidden (suc f) r w (d ∷ ds) h l (a, as', rest, e, t) = elim (snoc_view rest) [
  | inl nil ↦
      let same : d ∷ ds ≡ a ∷ as' = e ∙ rw nil (append-nil (a ∷ as')) in
      let now : w (render r (d ∷ ds)) ≡ true = ap (λ l. w (render r l)) same ∙ t in
      ground (arith, parent_loop-step f r w d ds h)
  | inr (rs, c, last) ↦
      let es = (a ∷ as') ++ rs in
      let whole : d ∷ ds ≡ es ++ (c ∷ []) =
        e ∙ ap (λ l. (a ∷ as') ++ l) last ∙ sym (append_assoc (a ∷ as') rs (c ∷ [])) in
      let (hes, hc) = All-of_append IsPlain es (c ∷ []) (subst AllPlain whole h) in
      let up : dir (render r (d ∷ ds)) ≡ render r es =
        ap (λ l. dir (render r l)) whole ∙ dir-render r es c hes hc.0 in
      let shorter : length es ≤ f = omega (arith, ap length whole, length-append es (c ∷ [])) in
      let rest_true : parent_loop f w (dir (render r (d ∷ ds))) ≡ true =
        ap (parent_loop f w) up
        ∙ parent_loop_of_Hidden f r w es hes shorter (a, as', rs, refl, t) in
      ground (arith, parent_loop-step f r w d ds h)
]

length-le-join_slash : (cs : List Text) → AllPlain cs → length cs ≤ length (join_slash cs)
unfolding join_slash
length-le-join_slash [] h = omega arith
length-le-join_slash ([] ∷ cs) h = absurd (cc (h.0.0, ==_refl []))
length-le-join_slash ((b ∷ c) ∷ []) h = omega arith
length-le-join_slash ((b ∷ c) ∷ d ∷ cs) h =
    omega (arith, length-le-join_slash (d ∷ cs) h.1, length-append c (slash ∷ join_slash (d ∷ cs)))

length-le-render : (r : Bool) (cs : List Text) → AllPlain cs → length cs ≤ length (render r cs)
unfolding render
length-le-render true cs h = omega (arith, length-le-join_slash cs h)
length-le-render false [] h = omega arith
length-le-render false (c ∷ cs) h = length-le-join_slash (c ∷ cs) h

-- For a path with the names `cs` and then `c`, rooted or not, the loop finds a whiteout exactly if
-- a proper parent of the path, other than the top, is one. So its rounds are enough.
pub is_parent_whiteout_iff :
    (r : Bool) (w : Text → Bool) (cs : List Text) (c : Text)
    → AllPlain cs
    → IsPlain c
    → (is_parent_whiteout w (render r (cs ++ (c ∷ []))) ≡ true) ↔ Hidden r w cs
unfolding is_parent_whiteout
is_parent_whiteout_iff r w cs c h p = (
  (λ t. parent_loop-Hidden _ r w cs h (ap (parent_loop _ w) (sym (dir-render r cs c h p)) ∙ t)),
  (λ k.
      ap (parent_loop _ w) (dir-render r cs c h p)
      ∙ parent_loop_of_Hidden _ r w cs h
          (omega (
            arith,
            length-append cs (c ∷ []),
            length-le-render r (cs ++ (c ∷ [])) (All-append IsPlain cs (c ∷ []) h (p, tt)),
          ))
          k),
)
