-- ===== src/Paths.antt =====
-- Go's `path/filepath` on Unix, as far as the sources call it: Clean, Join, Dir, Base, IsAbs, Abs
-- and Rel, on byte lists.
pub mod Components
pub mod Parents
pub mod Rooted
pub mod Below
use mysnapshotter.Prelude.{
  ℕ, Text, codes, ◌==◌, eqb, if◌then◌else◌, List, [], ◌∷◌, ◌++◌, reverse, Bool, true, false, ◌||◌,
  Result, ok, err, Error, message, ◌>>=◌,
}

abbrev pub slash : ℕ
slash = 47

abbrev pub dot : Text
dot = 46 ∷ []

abbrev pub dot_dot : Text
dot_dot = 46 ∷ 46 ∷ []

-- `filepath.IsAbs`.
abbrev pub is_abs : Text → Bool
is_abs [] = false
is_abs (c ∷ _) = eqb c slash

abbrev pub push_byte : ℕ → List Text → List Text
push_byte c [] = (c ∷ []) ∷ []
push_byte c (x ∷ xs) = (c ∷ x) ∷ xs

-- The pieces between the slashes.
unfoldable pub split_slash : Text → List Text
split_slash [] = [] ∷ []
split_slash (c ∷ s) =
    let rest = split_slash s in if eqb c slash then [] ∷ rest else push_byte c rest

-- One piece against the stack of the pieces kept so far, last first: an empty piece and `.` go, and
-- `..` takes the piece before it, or stays in front of a path that is not rooted.
unfoldable pub climb : Bool → List Text → List Text
climb true [] = []
climb false [] = dot_dot ∷ []
climb rooted (x ∷ xs) = if x == dot_dot then dot_dot ∷ x ∷ xs else xs

unfoldable pub step : Bool → List Text → Text → List Text
unfolding climb
step rooted stack piece =
    if piece == [] || piece == dot
    then stack
    else if piece == dot_dot
    then climb rooted stack
    else piece ∷ stack

unfoldable pub resolve : Bool → List Text → List Text → List Text
unfolding step
resolve rooted stack [] = stack
resolve rooted stack (p ∷ ps) = resolve rooted (step rooted stack p) ps

unfoldable pub join_slash : List Text → Text
join_slash [] = []
join_slash (x ∷ []) = x
join_slash (x ∷ y ∷ ys) = x ++ (slash ∷ join_slash (y ∷ ys))

unfoldable pub render : Bool → List Text → Text
unfolding join_slash
render true cs = slash ∷ join_slash cs
render false [] = dot
render false (c ∷ cs) = join_slash (c ∷ cs)

-- The pieces of a path in the order in which they stand, after Clean.
unfoldable pub components : Text → List Text
unfolding resolve split_slash
components s = reverse (resolve (is_abs s) [] (split_slash s))

-- `filepath.Clean`.
unfoldable pub clean : Text → Text
unfolding components render
clean s = render (is_abs s) (components s)

-- `filepath.Join` of two elements.
unfoldable pub join : Text → Text → Text
unfolding clean
join a b = if a == [] then (if b == [] then [] else clean b) else clean (a ++ (slash ∷ b))

-- Up to the last slash, on the reversed text.
unfoldable pub drop_name : Text → Text
drop_name [] = []
drop_name (c ∷ s) = let rest = drop_name s in if eqb c slash then c ∷ s else rest

-- `filepath.Dir`.
unfoldable pub dir : Text → Text
unfolding clean drop_name
dir s = clean (reverse (drop_name (reverse s)))

unfoldable pub take_name : Text → Text
take_name [] = []
take_name (c ∷ s) = let rest = take_name s in if eqb c slash then [] else c ∷ rest

unfoldable pub drop_slashes : Text → Text
drop_slashes [] = []
drop_slashes (c ∷ s) = let rest = drop_slashes s in if eqb c slash then rest else c ∷ s

abbrev or_slash : Text → Text
or_slash [] = slash ∷ []
or_slash (c ∷ s) = c ∷ s

-- `filepath.Base`.
unfoldable pub base : Text → Text
unfolding take_name drop_slashes
base [] = dot
base (c ∷ s) = or_slash (reverse (take_name (drop_slashes (reverse (c ∷ s)))))

-- `filepath.Abs`, with what `os.Getwd` gives for the working directory.
unfoldable pub abs : Result Text → Text → Result Text
unfolding join
abs cwd s = if is_abs s then ok (clean s) else (do wd ← cwd; ok (join wd s))

-- The pieces left after the common front of two lists of pieces.
abbrev pub up_all : List Text → List Text
up_all [] = []
up_all (_ ∷ xs) = dot_dot ∷ up_all xs

unfoldable pub strip_common : List Text → List Text → List Text
strip_common [] ts = ts
strip_common (b ∷ bs) [] = up_all (b ∷ bs)
strip_common (b ∷ bs) (t ∷ ts) =
    let rest = strip_common bs ts in if b == t then rest else up_all (b ∷ bs) ++ (t ∷ ts)

-- `filepath.Rel` between two rooted paths, where it cannot fail.
unfoldable pub rel : Text → Text → Text
unfolding strip_common render components
rel from to = render false (strip_common (components from) (components to))
