-- ===== src/Store/Leases.antt =====
-- What the operations of pkg/ocistore leave of the leases that they make.
use mysnapshotter.Prelude.{
  Bool, inl, inr, true, false, ◌⊎◌, Option, none, some, List, [], ◌∷◌, ◌≡◌, refl, ◌∙◌, String, Text,
  Error, Result, ok, err, if◌then◌else◌,
}
use mysnapshotter.Extractor.System.{M, pure, fail, after, wrapped, ◌>>=◌, attempt}
use mysnapshotter.Store.Containerd.{Labels, Containerd}
use mysnapshotter.Store.Views.{Keeps}
use mysnapshotter.Store.Snapshots.{not_initiated, with_lease, end_lease}
use mysnapshotter.Store.Unpacking.{end_strictly, leased_strictly}

-- Of a call that makes a lease, and of one that deletes it, from the leases before.
module _ {World : Type 0} (held : World → List Text) where
  abbrev pub Made : List Text → Result Text × World → Type 0
  Made h (ok l, w) = held w ≡ l ∷ h
  Made h (err e, w) = held w ≡ h

  abbrev pub Ended : Text → List Text → Result (Unit {0}) × World → Type 0
  Ended l h (ok _, w) = held w ≡ h
  Ended l h (err e, w) = held w ≡ l ∷ h

  -- No lease is left after a success, and at most one after an error.
  abbrev pub Released : {A : Type 0} → List Text → Result A × World → Type 0
  Released h (ok a, w) = held w ≡ h
  Released h (err e, w) = (held w ≡ h) ⊎ ((l : Text) × (held w ≡ l ∷ h))

-- The lease manager: the lease that was made last can be ended, or stays.
pub record LeaseManager (C : Containerd) : Type 0 where
  pub held : C.World → List Text
  pub create_lem :
      (id : Option Text) (labels : Labels) (w : C.World)
      → Made held (held w) (C.lease_create id labels w)
  pub delete_lem :
      (l : Text) (h : List Text) (w : C.World)
      → held w ≡ l ∷ h
      → Ended held l h (C.lease_delete l w)

module _ (C : Containerd) (initiated : Bool) (Q : LeaseManager C) where
  open C use {World}
  open Q use {held}

  -- The leases while an operation runs.
  abbrev pub with_own : Option Text → List Text → List Text
  with_own none h = h
  with_own (some l) h = l ∷ h

  success_end :
      {A : Type 0} (l : Text) (a : A) (h : List Text) (x : Result (Unit {0}) × World)
      → Ended held l h x
      → Released held h (after x (λ _. pure a))
  success_end l a h (ok _, w) d = d
  success_end l a h (err e, w) d = inr (l, d)

  failure_end :
      (A : Type 0) (l : Text) (e : Error) (h : List Text) (x : Result (Unit {0}) × World)
      → Ended held l h x
      → Released held {A = A} h (err e, x.1)
  failure_end A l e h (ok _, w) d = inl d
  failure_end A l e h (err y, w) d = inr (l, d)

  end_strictly-Released :
      {A : Type 0} (l : Option Text) (r : Result A) (h : List Text) (w : World)
      → held w ≡ with_own l h
      → Released held h (end_strictly C initiated l r w)
  unfolding end_strictly end_lease
  end_strictly-Released {A = A} none (ok a) h w e = e
  end_strictly-Released {A = A} none (err x) h w e = inl e
  end_strictly-Released {A = A} (some l) (ok a) h w e =
      success_end l a h (C.lease_delete l w) (Q.delete_lem l h w e)
  end_strictly-Released {A = A} (some l) (err x) h w e =
      failure_end A l x h (C.lease_delete l w) (Q.delete_lem l h w e)

  abbrev body_under : {A : Type 0} → M World A → Option Text → M World A
  body_under body l = do r ← attempt body; end_strictly C initiated l r

  after_lease :
      {A : Type 0} (s : String) (body : M World A) (h : List Text) (x : Result Text × World)
      → Keeps held body
      → Made held h x
      → Released held h (after (wrapped s (after x (λ l. pure (some l)))) (body_under body))
  after_lease {A = A} s body h (ok l, w) k m =
      end_strictly-Released {A = A} (some l) (body w).0 h (body w).1 (k w ∙ m)
  after_lease {A = A} s body h (err e, w) k m = inl m

  under_lease :
      {A : Type 0} (s : String) (body : M World A) (leased : Bool) (w : World)
      → Keeps held body
      → Released held (held w) (
          after
            (wrapped s
              ((if leased then pure none else (do l ← C.lease_create none []; pure (some l))) w))
            (body_under body))
  under_lease s body true w k = end_strictly-Released none (body w).0 (held w) (body w).1 (k w)
  under_lease s body false w k =
      after_lease s body (held w) (C.lease_create none [] w) k (Q.create_lem none [] w)

  if_initiated :
      {A : Type 0} (b : Bool) (m : M World A) (w : World)
      → Released held (held w) (m w)
      → Released held (held w) ((if b then m else fail not_initiated) w)
  if_initiated true m w h = h
  if_initiated false m w h = inl refl

  -- `Unpack` and `Commit`, and every operation that makes an error of a lease that cannot be ended:
  -- if what runs under the lease leaves the leases alone, a success leaves exactly the leases of
  -- before, and an error at most the operation's own one more.
  pub leased_strictly-Released :
      {A : Type 0} (s : String) (body : M World A) (w : World)
      → Keeps held body
      → Released held (held w) (leased_strictly C initiated s body w)
  unfolding leased_strictly with_lease
  leased_strictly-Released s body w k =
      if_initiated initiated _ w (under_lease s body C.leased_context w k)
