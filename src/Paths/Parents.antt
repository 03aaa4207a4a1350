-- ===== src/Paths/Parents.antt =====
-- `Dir` of a path put together from plain names drops the last name.
use mysnapshotter.Prelude.{
  ◌≡◌, refl, ap, ◌∙◌, Bool, true, false, List, [], ◌∷◌, ◌++◌, reverse, append-nil, append_assoc,
  All, All-append, Text, text_dec, ==_refl,
}
use mathlib.Core.List.{reverse-append, reverse-reverse, reverse-cons}
use mysnapshotter.Paths.{
  slash, is_abs, resolve, join_slash, render, components, clean, drop_name, dir,
}
use mysnapshotter.Paths.Components.{
  SlashFree, IsPlain, AllPlain, split_slash-join_slash_end, resolve-plain, resolve-append,
  resolve-empty,
}

pub All-reverse {ℓ} : {A : Type ℓ} (P : A → Type 0) (xs : List A) → All P xs → All P (reverse xs)
All-reverse P [] h = tt
All-reverse P (x ∷ xs) h =
    rw reverse-cons (All-append P (reverse xs) (x ∷ []) (All-reverse P xs h.1) (h.0, tt))

drop_name-append : (c s : Text) → SlashFree c → drop_name (c ++ (slash ∷ s)) ≡ slash ∷ s
unfolding drop_name
drop_name-append [] s h = refl
drop_name-append (b ∷ c) s h = rw (h.0, drop_name-append c s h.1)

drop_name-name : (c : Text) → SlashFree c → drop_name c ≡ []
unfolding drop_name
drop_name-name [] h = refl
drop_name-name (b ∷ c) h = rw (h.0, drop_name-name c h.1)

-- `Dir` cuts at the last slash and cleans.
dir-append : (t c : Text) → SlashFree c → dir (t ++ (slash ∷ c)) ≡ clean (t ++ (slash ∷ []))
unfolding dir
dir-append t c h =
    let turned : reverse (t ++ (slash ∷ c)) ≡ reverse c ++ (slash ∷ reverse t) =
      reverse-append t (slash ∷ c) ∙ rw (reverse-cons, append_assoc) refl in
    let cut : drop_name (reverse (t ++ (slash ∷ c))) ≡ slash ∷ reverse t =
      ap drop_name turned ∙ drop_name-append (reverse c) (reverse t) (All-reverse _ c h) in
    let back : reverse (slash ∷ reverse t) ≡ t ++ (slash ∷ []) =
      reverse-cons slash (reverse t) ∙ rw reverse-reverse refl in
    ap (λ u. clean (reverse u)) cut ∙ ap clean back

join_slash-snoc :
    (d : Text) (ds : List Text) (c : Text)
    → join_slash ((d ∷ ds) ++ (c ∷ [])) ≡ join_slash (d ∷ ds) ++ (slash ∷ c)
unfolding join_slash
join_slash-snoc d [] c = refl
join_slash-snoc d (e ∷ ds) c = rw (join_slash-snoc e ds c, append_assoc) refl

is_abs-append :
    (r : Bool) (d : Text) (ds : List Text) (s : Text)
    → AllPlain (d ∷ ds)
    → is_abs (render r (d ∷ ds) ++ s) ≡ r
unfolding render
is_abs-append true d ds s h = refl
is_abs-append false [] ds s h = absurd (cc (h.0.0, ==_refl []))
is_abs-append false (b ∷ d) [] s h = h.0.3.0
is_abs-append false (b ∷ d) (e ∷ ds) s h = h.0.3.0

-- A slash at the end is cleaned away.
components-end :
    (r : Bool) (d : Text) (ds : List Text)
    → AllPlain (d ∷ ds)
    → components (render r (d ∷ ds) ++ (slash ∷ [])) ≡ d ∷ ds
unfolding components render
components-end true d ds h = rw (split_slash-join_slash_end d ds h) (
    ap reverse (
      ap (λ st. resolve true st ((d ∷ ds) ++ ([] ∷ []))) (resolve-empty true [])
      ∙ resolve-append true [] (d ∷ ds) ([] ∷ [])
      ∙ resolve-empty true _
      ∙ resolve-plain true [] (d ∷ ds) h
      ∙ append-nil _)
    ∙ reverse-reverse (d ∷ ds))
components-end false d ds h =
    rw (is_abs-append false d ds (slash ∷ []) h, split_slash-join_slash_end d ds h)
      (ap reverse (
          resolve-append false [] (d ∷ ds) ([] ∷ [])
          ∙ resolve-empty false _
          ∙ resolve-plain false [] (d ∷ ds) h
          ∙ append-nil _)
        ∙ reverse-reverse (d ∷ ds))

clean-end :
    (r : Bool) (d : Text) (ds : List Text)
    → AllPlain (d ∷ ds)
    → clean (render r (d ∷ ds) ++ (slash ∷ [])) ≡ render r (d ∷ ds)
unfolding clean
clean-end r d ds h =
    ap (λ a. render a (components (render r (d ∷ ds) ++ (slash ∷ [])))) (is_abs-append r d ds _ h)
    ∙ ap (render r) (components-end r d ds h)

pub dir-render :
    (r : Bool) (cs : List Text) (c : Text)
    → AllPlain cs
    → IsPlain c
    → dir (render r (cs ++ (c ∷ []))) ≡ render r cs
dir-render true [] c h p = unfold render text_dec clean in dir-append [] c p.3
dir-render false [] c h p =
    unfold dir render text_dec in
    ap (λ u. clean (reverse u)) (drop_name-name (reverse c) (All-reverse _ c p.3))
dir-render true (d ∷ ds) c h p =
    unfold render in
    (ap (λ u. dir (slash ∷ u)) (join_slash-snoc d ds c)
      ∙ dir-append (slash ∷ join_slash (d ∷ ds)) c p.3
      ∙ clean-end true d ds h)
dir-render false (d ∷ ds) c h p =
    unfold render in
    (ap dir (join_slash-snoc d ds c)
      ∙ dir-append (join_slash (d ∷ ds)) c p.3
      ∙ clean-end false d ds h)
