-- ===== src/Extractor/Layer/Safety.antt =====
-- `ensureSafePath` accepts exactly the targets at or below the base directory.
use mysnapshotter.Prelude.{
  ◌≡◌, refl, sym, ap, ◌∙◌, ◌↔◌, inl, inr, Bool, true, false, ◌||◌, List, [], ◌∷◌, ◌++◌, arith,
  if◌then◌else◌, Bool-cases, All-of_append, is_some, Text, codes, text_dec, ◌==◌, ==_refl, message,
  Result, ok, err,
}
use mathlib.Core.Path.{subst}
use mysnapshotter.Paths.{
  dot, dot_dot, is_abs, split_slash, join_slash, render, components, clean, abs, rel, strip_common,
  up_all,
}
use mysnapshotter.Paths.Components.{IsPlain, AllPlain, split_slash-append, split_slash-join_slash}
use mysnapshotter.Paths.Rooted.{components-AllPlain, components-clean}
use mysnapshotter.Extractor.Layer.{ensure_safe_path}
use mysnapshotter.Prelude.{cut_prefix}

abs-rooted : (cwd : Result Text) (s : Text) → is_abs s ≡ true → abs cwd s ≡ ok (clean s)
unfolding abs
abs-rooted cwd s h = rw h

-- The text leads up, out of the directory.
abbrev escapes : Text → Bool
escapes r = is_some (cut_prefix (codes "../") r) || r == codes ".."

cut_prefix-eq : (a s : Text) → is_some (cut_prefix a s) ≡ true → (t : Text) × (s ≡ a ++ t)
unfolding cut_prefix
cut_prefix-eq [] s h = (s, refl)
cut_prefix-eq (c ∷ a) [] h = absurd (cc)
cut_prefix-eq (c ∷ a) (b ∷ s) h = let (t, e) = cut_prefix-eq a s (ground arith) in (t, ground arith)

escapes-up : (cs : List Text) → escapes (render false (dot_dot ∷ cs)) ≡ true
unfolding render cut_prefix text_dec
escapes-up [] = refl
escapes-up (c ∷ cs) = refl

-- A first name other than `..` cannot lead up.
not_escapes :
    (c : Text) (cs : List Text) → AllPlain (c ∷ cs) → escapes (join_slash (c ∷ cs)) ≡ true → ⊥
not_escapes c cs h e =
    elim (Bool-cases (is_some (cut_prefix (codes "../") (join_slash (c ∷ cs))))) [
      | inl front ↦
          let (t, same) = cut_prefix-eq (codes "../") (join_slash (c ∷ cs)) front in
          let pieces : c ∷ cs ≡ dot_dot ∷ split_slash t =
            sym (split_slash-join_slash c cs h)
            ∙ ap split_slash same
            ∙ split_slash-append dot_dot t (refl, (refl, tt)) in
          ground arith
      | inr n ↦
          let same : join_slash (c ∷ cs) ≡ dot_dot = ground arith in
          let pieces : c ∷ cs ≡ dot_dot ∷ [] =
            sym (split_slash-join_slash c cs h)
            ∙ ap split_slash same
            ∙ (unfold split_slash in refl) in
          ground arith
    ]

escapes-dot : escapes dot ≡ false
unfolding cut_prefix text_dec
escapes-dot = refl

escapes-plain : (cs : List Text) → AllPlain cs → escapes (render false cs) ≡ false
unfolding render
escapes-plain [] h = escapes-dot
escapes-plain (c ∷ cs) h = elim (Bool-cases (escapes (join_slash (c ∷ cs)))) [
  | inr e ↦ e
  | inl e ↦ absurd (not_escapes c cs h e)
]

strip_common-append : (bs rest : List Text) → strip_common bs (bs ++ rest) ≡ rest
unfolding strip_common
strip_common-append [] rest = refl
strip_common-append (b ∷ bs) rest = rw (==_refl b) (strip_common-append bs rest)

strip_common-below :
    (bs ts : List Text)
    → escapes (render false (strip_common bs ts)) ≡ false
    → (rest : List Text) × (ts ≡ bs ++ rest)
unfolding strip_common
strip_common-below [] ts h = (ts, refl)
strip_common-below (b ∷ bs) [] h = absurd (cc (escapes-up (up_all bs), h))
strip_common-below (b ∷ bs) (t ∷ ts) h = elim (Bool-cases (b == t)) [
  | inr n ↦ absurd (cc (escapes-up (up_all bs ++ (t ∷ ts)), rw n at h))
  | inl e ↦ let (rest, same) = strip_common-below bs ts (rw e at h) in (rest, ground arith)
]

-- On rooted paths the check is one test.
ensure_safe_path-eq :
    (cwd : Result Text) (base_dir target : Text)
    → is_abs base_dir ≡ true
    → is_abs target ≡ true
    → ensure_safe_path cwd base_dir target ≡ (
        if escapes (render false (strip_common (components base_dir) (components target)))
        then err (message "path traversal detected")
        else ok tt)
unfolding ensure_safe_path rel
ensure_safe_path-eq cwd base_dir target hb ht =
    rw (abs-rooted cwd base_dir hb, abs-rooted cwd target ht)
      (rw (components-clean base_dir hb, components-clean target ht) refl)

-- For two rooted paths, the check passes exactly if the names of the target begin with those of
-- the base directory.
pub ensure_safe_path_iff :
    (cwd : Result Text) (base_dir target : Text)
    → is_abs base_dir ≡ true
    → is_abs target ≡ true
    → (ensure_safe_path cwd base_dir target ≡ ok tt)
      ↔ ((rest : List Text) × (components target ≡ components base_dir ++ rest))
ensure_safe_path_iff cwd base_dir target hb ht = (
  (λ h.
      strip_common-below (components base_dir) (components target)
        (ground (arith, ensure_safe_path-eq cwd base_dir target hb ht))),
  (λ (rest, e).
      let plain : AllPlain rest =
        (All-of_append IsPlain (components base_dir) rest
          (subst AllPlain e (components-AllPlain target ht))).1 in
      let left : strip_common (components base_dir) (components target) ≡ rest =
        ap (strip_common (components base_dir)) e
        ∙ strip_common-append (components base_dir) rest in
      let calm : escapes (render false (strip_common (components base_dir) (components target)))
          ≡ false =
        ap (λ cs. escapes (render false cs)) left ∙ escapes-plain rest plain in
      ensure_safe_path-eq cwd base_dir target hb ht ∙ rw calm refl),
)
