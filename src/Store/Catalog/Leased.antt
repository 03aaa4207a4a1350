-- ===== src/Store/Catalog/Leased.antt =====
-- An operation under a lease of its own does to the image records what it does without one.
use mysnapshotter.Prelude.{
  Bool, true, false, Option, none, some, [], ◌≡◌, refl, sym, if◌then◌else◌, Text, Error, Result, ok,
  err,
}
use mathlib.Core.Path.{subst}
use mysnapshotter.Extractor.System.{M, pure, fail, after}
use mysnapshotter.Store.Containerd.{Containerd}
use mysnapshotter.Store.Views.{Keeps, bind-Keeps, if-Keeps}
use mysnapshotter.Store.Snapshots.{not_initiated, with_lease, end_lease, leased}
use mysnapshotter.Store.Catalog.{Records, Catalog}

module _ (C : Containerd) (initiated : Bool) (L : Catalog C) where
  open C use {World}
  open L use {view}

  end_lease-Keeps : (l : Option Text) → Keeps view (end_lease C initiated l)
  unfolding end_lease
  end_lease-Keeps none = λ w. refl
  end_lease-Keeps (some l) = L.delete_lease-Keeps l

  with_lease-Keeps : Keeps view (with_lease C initiated none [])
  unfolding with_lease
  with_lease-Keeps =
      if-Keeps view C.leased_context _ _ (λ w. refl)
        (bind-Keeps view (C.lease_create none []) (λ l. pure (some l))
          (L.create_lease-Keeps none []) (λ l w. refl))

  -- What an operation did, from the records before, its result and the records after it.
  abbrev pub Did :
      {B : Type 0} → (Records → Result B → Records → Type 0) → Records → Result B × World → Type 0
  Did P r x = P r x.0 (view x.1)

  module _ {B : Type 0} (P : Records → Result B → Records → Type 0)
      (unchanged : (r : Records) (e : Error) → P r (err e) r) where
    after_lease :
        (r : Records) (x : Result (Option Text) × World) (k : Option Text → M World B)
        → view x.1 ≡ r
        → ((l : Option Text) (w : World) → Did P (view w) (k l w))
        → Did P r (after x k)
    after_lease r (ok l, w) k e h = subst (λ s. Did P s (k l w)) e (h l w)
    after_lease r (err x, w) k e h = subst (λ s. P r (err x) s) (sym e) (unchanged r x)

    if_checked :
        (b : Bool) (m : M World B) (w : World)
        → Did P (view w) (m w)
        → Did P (view w) ((if b then m else fail not_initiated) w)
    if_checked true m w h = h
    if_checked false m w h = unchanged (view w) not_initiated

    pub leased-Did :
        (body : M World B) (w : World)
        → ((w : World) → Did P (view w) (body w))
        → Did P (view w) (leased C initiated body w)
    unfolding leased
    leased-Did body w h = if_checked initiated _ w (
        after_lease (view w) (with_lease C initiated none [] w) _ (with_lease-Keeps w) (λ l w1.
          let x = body w1 in subst (λ s. P (view w1) x.0 s) (sym (end_lease-Keeps l x.1)) (h w1)))
