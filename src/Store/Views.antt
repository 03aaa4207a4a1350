-- ===== src/Store/Views.antt =====
-- What the actions on the stores leave of a view of the world.
use mysnapshotter.Prelude.{
  Bool, true, false, if◌then◌else◌, String, ◌≡◌, refl, ◌∙◌, Error, Result, ok, err,
}
use mysnapshotter.Extractor.System.{M, after, ◌>>=◌, attempt, wrapped, named}

module _ {World View : Type 0} (view : World → View) where
  -- The action leaves the view as it is, whatever it returns.
  abbrev pub Keeps : {A : Type 0} → M World A → Type 0
  Keeps m = (w : World) → view (m w).1 ≡ view w

  keeps-after :
      {A B : Type 0} (x : Result A × World) (f : A → M World B)
      → ((a : A) → Keeps (f a))
      → view (after x f).1 ≡ view x.1
  keeps-after (ok a, w) f h = h a w
  keeps-after (err e, w) f h = refl

  -- Two actions in sequence.
  pub bind-Keeps :
      {A B : Type 0} (m : M World A) (f : A → M World B)
      → Keeps m
      → ((a : A) → Keeps (f a))
      → Keeps (m >>= f)
  bind-Keeps m f a b w = keeps-after (m w) f b ∙ a w

  keeps-wrapped : {A : Type 0} (s : String) (x : Result A × World) → view (wrapped s x).1 ≡ view x.1
  keeps-wrapped s (ok a, w) = refl
  keeps-wrapped s (err e, w) = refl

  pub named-Keeps : {A : Type 0} (s : String) (m : M World A) → Keeps m → Keeps (named s m)
  named-Keeps s m a w = keeps-wrapped s (m w) ∙ a w

  pub attempt-Keeps : {A : Type 0} (m : M World A) → Keeps m → Keeps (attempt m)
  attempt-Keeps m a = a

  by_result :
      {A B : Type 0} (f : Result A → M World B)
      → ((a : A) → Keeps (f (ok a)))
      → ((e : Error) → Keeps (f (err e)))
      → (r : Result A) → Keeps (f r)
  by_result f b c (ok a) = b a
  by_result f b c (err e) = c e

  -- An action whose result decides what follows.
  pub settled-Keeps :
      {A B : Type 0} (m : M World A) (f : Result A → M World B)
      → Keeps m
      → ((a : A) → Keeps (f (ok a)))
      → ((e : Error) → Keeps (f (err e)))
      → Keeps (attempt m >>= f)
  settled-Keeps m f a b c = bind-Keeps (attempt m) f a (by_result f b c)

  pub if-Keeps :
      {A : Type 0} (b : Bool) (m k : M World A) → Keeps m → Keeps k → Keeps (if b then m else k)
  if-Keeps true m k a b = a
  if-Keeps false m k a b = b
