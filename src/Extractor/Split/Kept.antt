-- ===== src/Extractor/Split/Kept.antt =====
-- How the lists of files grow in `processTOC`.
use mysnapshotter.Prelude.{
  ℕ, zero, suc, ◌+◌, ◌<◌, ◌≡◌, refl, sym, ap, ◌∙◌, ◌⊎◌, inl, inr, some, List, [], ◌∷◌, ◌++◌, arith,
  ltb, Bool-cases, length, get_elem?, Any, Any-append_left, Any-append_right,
}
use mathlib.Core.Path.{subst}
use mysnapshotter.Extractor.Files.{TocFile}
use mysnapshotter.Extractor.Split.{add_duplicate, add_duplicates, append_duplicate}

abbrev pub Has : ℕ → List ℕ → Type 0
Has i is = Any (λ k. k ≡ i) is

pub get-append_left :
    {A : Type 0} (xs ys : List A) (j : ℕ) {a : A}
    → get_elem? xs j ≡ some a
    → get_elem? (xs ++ ys) j ≡ some a
get-append_left [] ys j h = absurd (cc)
get-append_left (x ∷ xs) ys zero h = h
get-append_left (x ∷ xs) ys (suc j) h = get-append_left xs ys j h

pub get-append_length :
    {A : Type 0} (xs : List A) (a : A) → get_elem? (xs ++ (a ∷ [])) (length xs) ≡ some a
get-append_length [] a = refl
get-append_length (x ∷ xs) a = get-append_length xs a

-- The file has at least the duplicates of the other one.
abbrev pub Grows : TocFile → TocFile → Type 0
Grows f g = (i : ℕ) → Has i f.duplicates → Has i g.duplicates

abbrev pub Kept : List TocFile → List TocFile → Type 0
Kept fs gs =
    (j : ℕ) (f : TocFile)
    → get_elem? fs j ≡ some f
    → (g : TocFile) × (get_elem? gs j ≡ some g) × Grows f g

append_duplicate-Grows : (k : ℕ) (f : TocFile) → Grows f (append_duplicate k f)
append_duplicate-Grows k f i h = Any-append_left (λ n. n ≡ i) f.duplicates (k ∷ []) h

pub some_inj : {A : Type 0} {a b : A} → some a ≡ some b → a ≡ b
some_inj h = cc

Grows-refl : {f g : TocFile} → some f ≡ some g → Grows g f
Grows-refl h i = subst (λ f. Has i f.duplicates) (sym (some_inj h))

add_duplicate-Kept : (k : ℕ) (fs : List TocFile) (j : ℕ) → Kept fs (add_duplicate k fs j)
unfolding add_duplicate
add_duplicate-Kept k [] j m f h = absurd (cc)
add_duplicate-Kept k (x ∷ fs) zero zero f h =
    (append_duplicate k x, refl, λ i a. append_duplicate-Grows k x i (Grows-refl h i a))
add_duplicate-Kept k (x ∷ fs) zero (suc m) f h = (f, h, λ i a. a)
add_duplicate-Kept k (x ∷ fs) (suc j) zero f h = (f, h, λ i a. a)
add_duplicate-Kept k (x ∷ fs) (suc j) (suc m) f h = add_duplicate-Kept k fs j m f h

add_duplicate-Has :
    (k : ℕ) (fs : List TocFile) (j : ℕ) {f : TocFile}
    → get_elem? fs j ≡ some f
    → (g : TocFile) × (get_elem? (add_duplicate k fs j) j ≡ some g) × Has k g.duplicates
unfolding add_duplicate
add_duplicate-Has k [] j h = absurd (cc)
add_duplicate-Has k (x ∷ fs) zero h =
    (append_duplicate k x, refl, Any-append_right (λ n. n ≡ k) x.duplicates (k ∷ []) (inl refl))
add_duplicate-Has k (x ∷ fs) (suc j) h = add_duplicate-Has k fs j h

add_duplicate-length :
    (k : ℕ) (fs : List TocFile) (j : ℕ) → length (add_duplicate k fs j) ≡ length fs
unfolding add_duplicate
add_duplicate-length k [] j = refl
add_duplicate-length k (x ∷ fs) zero = refl
add_duplicate-length k (x ∷ fs) (suc j) = ap suc (add_duplicate-length k fs j)

pub add_duplicates-Kept :
    (k : ℕ) (fs : List TocFile) (js : List ℕ) → Kept fs (add_duplicates k fs js)
unfolding add_duplicates
add_duplicates-Kept k fs [] m f h = (f, h, λ i a. a)
add_duplicates-Kept k fs (j ∷ js) m f h =
    let (g, hg, a) = add_duplicate-Kept k fs j m f h in
    let (g', hg', b) = add_duplicates-Kept k (add_duplicate k fs j) js m g hg in
    (g', hg', λ i x. b i (a i x))

pub add_duplicates-length :
    (k : ℕ) (fs : List TocFile) (js : List ℕ) → length (add_duplicates k fs js) ≡ length fs
unfolding add_duplicates
add_duplicates-length k fs [] = refl
add_duplicates-length k fs (j ∷ js) =
    add_duplicates-length k (add_duplicate k fs j) js ∙ add_duplicate-length k fs j

-- The first of the places gets the duplicate.
pub add_duplicates-Has :
    (k : ℕ) (fs : List TocFile) (j : ℕ) (js : List ℕ) {f : TocFile}
    → get_elem? fs j ≡ some f
    → (g : TocFile) × (get_elem? (add_duplicates k fs (j ∷ js)) j ≡ some g) × Has k g.duplicates
unfolding add_duplicates
add_duplicates-Has k fs j js h =
    let (g, hg, a) = add_duplicate-Has k fs j h in
    let (g', hg', b) = add_duplicates-Kept k (add_duplicate k fs j) js j g hg in (g', hg', b k a)

pub append-Kept : (fs gs : List TocFile) → Kept fs (fs ++ gs)
append-Kept fs gs j f h = (f, get-append_left fs gs j h, λ i a. a)

-- The last place of a longer list, or a place of the list itself.
pub last_or_before : (i n : ℕ) → i < n + 1 → (i < n) ⊎ (i ≡ n)
last_or_before i n h = elim (Bool-cases (ltb i n)) [
  | inl t ↦ inl (ground arith)
  | inr f ↦ inr (ground arith)
]
