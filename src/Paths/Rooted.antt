-- ===== src/Paths/Rooted.antt =====
-- Clean of a rooted path: its pieces are plain names.
use mysnapshotter.Prelude.{
  ℕ, ◌≡◌, ap, ◌∙◌, inl, inr, true, false, List, [], ◌∷◌, arith, eqb, Bool-cases, All, Text,
}
use mysnapshotter.Paths.{
  slash, is_abs, push_byte, split_slash, step, resolve, render, components, clean,
}
use mysnapshotter.Paths.Components.{SlashFree, IsPlain, AllPlain, components-render}
use mysnapshotter.Paths.Parents.{All-reverse}

push_byte-SlashFree :
    (c : ℕ) (ps : List Text)
    → eqb c slash ≡ false
    → All SlashFree ps
    → All SlashFree (push_byte c ps)
push_byte-SlashFree c [] e h = ((e, tt), tt)
push_byte-SlashFree c (p ∷ ps) e h = ((e, h.0), h.1)

split_slash-SlashFree : (s : Text) → All SlashFree (split_slash s)
unfolding split_slash
split_slash-SlashFree [] = (tt, tt)
split_slash-SlashFree (c ∷ s) = elim (Bool-cases (eqb c slash)) [
  | inl e ↦ rw e (tt, split_slash-SlashFree s)
  | inr e ↦ rw e (push_byte-SlashFree c (split_slash s) e (split_slash-SlashFree s))
]

step-AllPlain : (st : List Text) (p : Text) → AllPlain st → SlashFree p → AllPlain (step true st p)
unfolding step
step-AllPlain [] p h f = ground arith
step-AllPlain (x ∷ st) p h f = ground arith

resolve-AllPlain :
    (st ps : List Text) → AllPlain st → All SlashFree ps → AllPlain (resolve true st ps)
unfolding resolve
resolve-AllPlain st [] h f = h
resolve-AllPlain st (p ∷ ps) h f =
    resolve-AllPlain (step true st p) ps (step-AllPlain st p h f.0) f.1

-- The names of a rooted path are plain.
pub components-AllPlain : (s : Text) → is_abs s ≡ true → AllPlain (components s)
unfolding components
components-AllPlain s h =
    rw h (All-reverse IsPlain _ (resolve-AllPlain [] (split_slash s) tt (split_slash-SlashFree s)))

pub clean-rooted : (s : Text) → is_abs s ≡ true → clean s ≡ render true (components s)
unfolding clean
clean-rooted s h = rw h

pub components-clean : (s : Text) → is_abs s ≡ true → components (clean s) ≡ components s
components-clean s h =
    ap components (clean-rooted s h)
    ∙ components-render true (components s) (components-AllPlain s h)
