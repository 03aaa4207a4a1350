-- ===== src/Prelude/Sorting.antt =====
-- Go's `sort.Slice`: a permutation in which no element is less than one before it. It is not
-- stable, so any such function may stand for it.
use mathlib.Core.Path.{◌≡◌}
use mathlib.Core.Bool.{Bool, true, false}
use mathlib.Core.List.{List, [], ◌∷◌, Perm, Permᴰ}
use mathlib.Core.List.Permᴰ
use mathlib.Core.Path.{refl, subst}
use mathlib.Core.Logic.{∥∥₁_elim}
use mysnapshotter.Prelude.Lists.{All}

abbrev pub Ordered {ℓ} : {A : Type ℓ} → (A → A → Bool) → List A → Type 0
Ordered less [] = Unit
Ordered less (x ∷ xs) = All (λ y. less y x ≡ false) xs × Ordered less xs

pub record Sorter (A : Type 0) : Type 0 where
  pub sort : (A → A → Bool) → List A → List A
  pub sort-perm : (less : A → A → Bool) (xs : List A) → Perm (sort less xs) xs
  -- For a strict weak order.
  pub sort-Ordered :
      (less : A → A → Bool)
      → ((a b : A) → less a b ≡ true → less b a ≡ false)
      → ((a b c : A) → less b a ≡ false → less c b ≡ false → less c a ≡ false)
      → (xs : List A) → Ordered less (sort less xs)

-- What holds of all elements holds of them in another order.
All-reordered : {A : Type 0} (P : A → Type 0) {xs ys : List A} → Permᴰ xs ys → All P xs → All P ys
All-reordered P Permᴰ.nil h = h
All-reordered P (Permᴰ.cons e d) h = (subst P e h.0, All-reordered P d h.1)
All-reordered P (Permᴰ.swap e f) h = (subst P f h.1.0, (subst P e h.0, h.1.1))
All-reordered P (Permᴰ.trans d e) h = All-reordered P e (All-reordered P d h)

All-IsProp :
    {A : Type 0} (P : A → Type 0) → ((x : A) → IsProp (P x)) → (xs : List A) → IsProp (All P xs)
All-IsProp P h [] = λ x y. refl
All-IsProp P h (x ∷ xs) = λ a b i. (h x a.0 b.0 i, All-IsProp P h xs a.1 b.1 i)

pub All-Perm :
    {A : Type 0} (P : A → Type 0)
    → ((x : A) → IsProp (P x))
    → {xs ys : List A} → Perm xs ys
    → All P ys
    → All P xs
All-Perm P h {xs} {ys} p a = ∥∥₁_elim p (All-IsProp P h xs) (λ d. All-reordered P (Permᴰ.symm d) a)
