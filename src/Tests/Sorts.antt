-- ===== src/Tests/Sorts.antt =====
-- Insertion sort, as a stand-in for `sort.Slice`.
use mysnapshotter.Prelude.{
  ◌≡◌, refl, Bool, true, false, List, [], ◌∷◌, All, inl, inr, Bool-cases, if◌then◌else◌,
}
use mysnapshotter.Prelude.Sorting.{Sorter, Ordered}
use mathlib.Core.List.{Permᴰ}
use mathlib.Core.List.Permᴰ as Shuffle

module _ {A : Type 0} (less : A → A → Bool) where
  unfoldable pub insert : A → List A → List A
  insert x [] = x ∷ []
  insert x (y ∷ ys) = let rest = insert x ys in if less y x then y ∷ rest else x ∷ y ∷ ys

  unfoldable pub insertion_sort : List A → List A
  unfolding insert
  insertion_sort [] = []
  insertion_sort (x ∷ xs) = insert x (insertion_sort xs)

  insert-perm : (x : A) (ys : List A) → Permᴰ (insert x ys) (x ∷ ys)
  unfolding insert
  insert-perm x [] = Shuffle.refl (x ∷ [])
  insert-perm x (y ∷ ys) = elim (Bool-cases (less y x)) [
    | inl e ↦ rw e (Permᴰ.trans (Permᴰ.cons refl (insert-perm x ys)) (Permᴰ.swap refl refl))
    | inr e ↦ rw e (Shuffle.refl (x ∷ y ∷ ys))
  ]

  pub insertion_sort-perm : (xs : List A) → Permᴰ (insertion_sort xs) xs
  unfolding insertion_sort
  insertion_sort-perm [] = Permᴰ.nil
  insertion_sort-perm (x ∷ xs) =
      Permᴰ.trans (insert-perm x (insertion_sort xs)) (Permᴰ.cons refl (insertion_sort-perm xs))

  insert-All : (P : A → Type 0) (x : A) (ys : List A) → P x → All P ys → All P (insert x ys)
  unfolding insert
  insert-All P x [] p h = (p, tt)
  insert-All P x (y ∷ ys) p h = elim (Bool-cases (less y x)) [
    | inl e ↦ rw e (h.0, insert-All P x ys p h.1)
    | inr e ↦ rw e (p, h)
  ]

  module _ (asym : (a b : A) → less a b ≡ true → less b a ≡ false)
      (trans : (a b c : A) → less b a ≡ false → less c b ≡ false → less c a ≡ false) where
    All-below :
        (x y : A) (ys : List A)
        → less y x ≡ false
        → All (λ z. less z y ≡ false) ys
        → All (λ z. less z x ≡ false) ys
    All-below x y [] e h = tt
    All-below x y (z ∷ ys) e h = (trans x y z e h.0, All-below x y ys e h.1)

    insert-Ordered : (x : A) (ys : List A) → Ordered less ys → Ordered less (insert x ys)
    unfolding insert
    insert-Ordered x [] h = (tt, tt)
    insert-Ordered x (y ∷ ys) h = elim (Bool-cases (less y x)) [
      | inl e ↦
          rw e (insert-All (λ z. less z y ≡ false) x ys (asym y x e) h.0, insert-Ordered x ys h.1)
      | inr e ↦ rw e ((e, All-below x y ys e h.0), h)
    ]

    pub insertion_sort-Ordered : (xs : List A) → Ordered less (insertion_sort xs)
    unfolding insertion_sort
    insertion_sort-Ordered [] = tt
    insertion_sort-Ordered (x ∷ xs) =
        insert-Ordered x (insertion_sort xs) (insertion_sort-Ordered xs)

abbrev pub by_insertion : {A : Type 0} → Sorter A
by_insertion = record {
  sort = insertion_sort;
  sort-perm = λ less xs. ∣ insertion_sort-perm less xs ∣₁;
  sort-Ordered = insertion_sort-Ordered;
}
