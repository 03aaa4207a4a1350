-- ===== src/Paths/Components.antt =====
-- What Clean, Dir and Join do to a path that is put together from plain names.
use mysnapshotter.Prelude.{
  ◌≡◌, refl, ap, ◌∙◌, Bool, true, false, List, [], ◌∷◌, ◌++◌, reverse, append-nil, append_assoc,
  eqb, All, Text, text_dec, ◌==◌, ==_refl,
}
use mathlib.Core.List.{reverse-append, reverse-reverse}
use mysnapshotter.Paths.{
  slash, dot, dot_dot, is_abs, split_slash, step, resolve, join_slash, render, components, clean,
}

abbrev pub SlashFree : Text → Type 0
SlashFree = All (λ b. eqb b slash ≡ false)

-- A file name other than `.` and `..`.
abbrev pub IsPlain : Text → Type 0
IsPlain c = ((c == []) ≡ false) × ((c == dot) ≡ false) × ((c == dot_dot) ≡ false) × SlashFree c

abbrev pub AllPlain : List Text → Type 0
AllPlain = All IsPlain

pub split_slash-name : (c : Text) → SlashFree c → split_slash c ≡ c ∷ []
unfolding split_slash
split_slash-name [] h = refl
split_slash-name (b ∷ c) h = rw (h.0, split_slash-name c h.1)

-- A name, a slash and more text are split at that slash.
pub split_slash-append :
    (c s : Text) → SlashFree c → split_slash (c ++ (slash ∷ s)) ≡ c ∷ split_slash s
unfolding split_slash
split_slash-append [] s h = refl
split_slash-append (b ∷ c) s h = rw (h.0, split_slash-append c s h.1)

pub split_slash-join_slash :
    (c : Text) (cs : List Text) → AllPlain (c ∷ cs) → split_slash (join_slash (c ∷ cs)) ≡ c ∷ cs
unfolding join_slash
split_slash-join_slash c [] h = split_slash-name c h.0.3
split_slash-join_slash c (d ∷ cs) h =
    split_slash-append c (join_slash (d ∷ cs)) h.0.3 ∙ ap (◌∷◌ c) (split_slash-join_slash d cs h.1)

-- The slash that `Dir` leaves at the end adds an empty piece.
pub split_slash-join_slash_end :
    (c : Text) (cs : List Text)
    → AllPlain (c ∷ cs)
    → split_slash (join_slash (c ∷ cs) ++ (slash ∷ [])) ≡ (c ∷ cs) ++ ([] ∷ [])
unfolding join_slash
split_slash-join_slash_end c [] h = unfold split_slash in split_slash-append c [] h.0.3
split_slash-join_slash_end c (d ∷ cs) h = rw append_assoc (
    split_slash-append c (join_slash (d ∷ cs) ++ (slash ∷ [])) h.0.3
    ∙ ap (◌∷◌ c) (split_slash-join_slash_end d cs h.1))

pub resolve-plain :
    (r : Bool) (st cs : List Text) → AllPlain cs → resolve r st cs ≡ reverse cs ++ st
unfolding resolve
resolve-plain r st [] h = refl
resolve-plain r st (c ∷ cs) h =
    rw (h.0.0, h.0.1, h.0.2)
      (resolve-plain r (c ∷ st) cs h.1 ∙ rw (reverse-append (c ∷ []) cs, append_assoc) refl)

pub resolve-append :
    (r : Bool) (st cs ds : List Text) → resolve r st (cs ++ ds) ≡ resolve r (resolve r st cs) ds
unfolding resolve
resolve-append r st [] ds = refl
resolve-append r st (c ∷ cs) ds = resolve-append r (step r st c) cs ds

-- An empty piece does nothing.
pub resolve-empty : (r : Bool) (st : List Text) → resolve r st ([] ∷ []) ≡ st
unfolding resolve text_dec
resolve-empty r st = refl

pub is_abs-render : (r : Bool) (cs : List Text) → AllPlain cs → is_abs (render r cs) ≡ r
unfolding render
is_abs-render true cs h = refl
is_abs-render false [] h = refl
is_abs-render false ([] ∷ []) h = absurd (cc (h.0.0, ==_refl []))
is_abs-render false ((b ∷ c) ∷ []) h = h.0.3.0
is_abs-render false ([] ∷ d ∷ cs) h = absurd (cc (h.0.0, ==_refl []))
is_abs-render false ((b ∷ c) ∷ d ∷ cs) h = h.0.3.0

pub components-render : (r : Bool) (cs : List Text) → AllPlain cs → components (render r cs) ≡ cs
unfolding components render
components-render true [] h = unfold text_dec in refl
components-render false [] h = unfold text_dec in refl
components-render true (c ∷ cs) h = rw (split_slash-join_slash c cs h) (
    ap reverse (
      ap (λ st. resolve true st (c ∷ cs)) (resolve-empty true [])
      ∙ resolve-plain true [] (c ∷ cs) h
      ∙ append-nil _)
    ∙ reverse-reverse (c ∷ cs))
components-render false (c ∷ cs) h =
    rw (is_abs-render false (c ∷ cs) h, split_slash-join_slash c cs h)
      (ap reverse (resolve-plain false [] (c ∷ cs) h ∙ append-nil _) ∙ reverse-reverse (c ∷ cs))

-- Clean changes nothing of such a path.
pub clean-render : (r : Bool) (cs : List Text) → AllPlain cs → clean (render r cs) ≡ render r cs
unfolding clean
clean-render r cs h =
    ap (λ a. render a (components (render r cs))) (is_abs-render r cs h)
    ∙ ap (render r) (components-render r cs h)
