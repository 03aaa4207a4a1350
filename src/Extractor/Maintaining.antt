-- ===== src/Extractor/Maintaining.antt =====
-- Actions that keep an invariant of the world, whatever they return, and give values with a property.
use mysnapshotter.Prelude.{
  String, Bool, true, false, List, [], ◌∷◌, All, if◌then◌else◌, Error, Result, ok, err,
}
use mysnapshotter.Extractor.System.{
  M, pure, fail, after, ◌>>=◌, ◌>>◌, lift, wrapped, named, attempt, for_each,
}

-- The property of a value, if there is one.
abbrev pub IfOk : {A : Type 0} → (A → Type 0) → Result A → Type 0
IfOk Q (ok a) = Q a
IfOk Q (err e) = Unit

-- Nothing is said of the value.
abbrev pub Whatever : {A : Type 0} → A → Type 0
Whatever a = Unit

module _ {W : Type 0} (I : W → Type 0) where
  abbrev pub Ends : {A : Type 0} → (A → Type 0) → Result A × W → Type 0
  Ends Q (r, w) = I w × IfOk Q r

  pub record Maintains {A : Type 0} (Q : A → Type 0) (m : M W A) : Type 0 where
    pub run : (w : W) → I w → Ends Q (m w)

  pub pure-Maintains : {A : Type 0} {Q : A → Type 0} (a : A) → Q a → Maintains Q (pure a)
  pure-Maintains a q = record { run = λ w i. (i, q) }

  pub fail-Maintains : {A : Type 0} {Q : A → Type 0} (e : Error) → Maintains Q (fail {A = A} e)
  fail-Maintains e = record { run = λ w i. (i, tt) }

  pub lift-Maintains :
      {A : Type 0} {Q : A → Type 0} (r : Result A) → IfOk Q r → Maintains Q (lift r)
  lift-Maintains r q = record { run = λ w i. (i, q) }

  Ends-after :
      {A B : Type 0} (P : A → Type 0) (Q : B → Type 0) (x : Result A × W) (f : A → M W B)
      → Ends P x
      → ((a : A) → P a → Maintains Q (f a))
      → Ends Q (after x f)
  Ends-after P Q (ok a, w) f (i, p) h = Maintains.run (h a p) w i
  Ends-after P Q (err e, w) f (i, p) h = (i, tt)

  -- Two actions in sequence.
  pub bind-Maintains :
      {A B : Type 0} (P : A → Type 0) {Q : B → Type 0} {m : M W A} {f : A → M W B}
      → Maintains P m
      → ((a : A) → P a → Maintains Q (f a))
      → Maintains Q (m >>= f)
  bind-Maintains P {Q = Q} {m = m} {f = f} a b = record {
    run = λ w i. Ends-after P Q (m w) f (a.run w i) b;
  }

  pub then-Maintains :
      {A B : Type 0} {Q : B → Type 0} {m : M W A} {k : M W B}
      → Maintains Whatever m
      → Maintains Q k
      → Maintains Q (m >> k)
  then-Maintains {m = m} {k = k} a b = bind-Maintains Whatever {m = m} {f = λ _. k} a (λ _ _. b)

  Ends-wrapped :
      {A : Type 0} (Q : A → Type 0) (s : String) (x : Result A × W)
      → Ends Q x
      → Ends Q (wrapped s x)
  Ends-wrapped Q s (ok a, w) h = h
  Ends-wrapped Q s (err e, w) h = h

  pub named-Maintains :
      {A : Type 0} {Q : A → Type 0} (s : String) {m : M W A}
      → Maintains Q m
      → Maintains Q (named s m)
  named-Maintains {Q = Q} s {m = m} a = record { run = λ w i. Ends-wrapped Q s (m w) (a.run w i) }

  pub attempt-Maintains :
      {A : Type 0} {Q : A → Type 0} {m : M W A} → Maintains Q m → Maintains (IfOk Q) (attempt m)
  attempt-Maintains a = record { run = λ w i. a.run w i }

  by_result :
      {A B : Type 0} (P : A → Type 0) (Q : B → Type 0) (f : Result A → M W B)
      → ((a : A) → P a → Maintains Q (f (ok a)))
      → ((e : Error) → Maintains Q (f (err e)))
      → (r : Result A) → IfOk P r
      → Maintains Q (f r)
  by_result P Q f b c (ok a) p = b a p
  by_result P Q f b c (err e) p = c e

  -- An action whose result decides what follows.
  pub settled-Maintains :
      {A B : Type 0} (P : A → Type 0) {Q : B → Type 0} {m : M W A} (f : Result A → M W B)
      → Maintains P m
      → ((a : A) → P a → Maintains Q (f (ok a)))
      → ((e : Error) → Maintains Q (f (err e)))
      → Maintains Q (attempt m >>= f)
  settled-Maintains P {Q = Q} {m = m} f a b c =
      bind-Maintains (IfOk P) {m = attempt m} {f = f} (attempt-Maintains a) (by_result P Q f b c)

  pub if-Maintains :
      {A : Type 0} {Q : A → Type 0} (b : Bool) {m k : M W A}
      → Maintains Q m
      → Maintains Q k
      → Maintains Q (if b then m else k)
  if-Maintains true a b = a
  if-Maintains false a b = b

  weaker :
      {A : Type 0} (P Q : A → Type 0)
      → ((a : A) → P a → Q a)
      → (x : Result A × W) → Ends P x
      → Ends Q x
  weaker P Q h (ok a, w) (i, p) = (i, h a p)
  weaker P Q h (err e, w) (i, p) = (i, tt)

  -- A weaker property of the value.
  pub weaken-Maintains :
      {A : Type 0} (P : A → Type 0) {Q : A → Type 0} {m : M W A}
      → ((a : A) → P a → Q a)
      → Maintains P m
      → Maintains Q m
  weaken-Maintains P {Q = Q} {m = m} h a = record { run = λ w i. weaker P Q h (m w) (a.run w i) }

  pub for_each-Maintains :
      {A : Type 0} (P : A → Type 0) (xs : List A) {f : A → M W (Unit {0})}
      → All P xs
      → ((x : A) → P x → Maintains Whatever (f x))
      → Maintains Whatever (for_each xs f)
  unfolding for_each
  for_each-Maintains P [] h k = pure-Maintains tt tt
  for_each-Maintains P (x ∷ xs) h k = then-Maintains (k x h.0) (for_each-Maintains P xs h.1 k)
