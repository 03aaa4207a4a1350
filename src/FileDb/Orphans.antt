-- ===== src/FileDb/Orphans.antt =====
-- No digest stays in the database without a path: the garbage collection of `RemoveRoot`.
use mysnapshotter.Prelude.{
  ◌≡◌, sym, ◌∙◌, inl, inr, true, false, [], ◌∷◌, arith, Bool-cases, is_some, Text, ◌==◌, ==_iff,
  ==_refl, ok, >>=-eq-ok,
}
use mathlib.Core.Path.{subst}
use mysnapshotter.Paths.{join}
use mysnapshotter.FileDb.Buckets.{checksums, roots, Pairs, lookup, Bolt, IsLawful}
use mysnapshotter.FileDb.{is_empty, remove_path, remove_paths, remove_root_tx}
use mysnapshotter.FileDb.Keys.{has_key}

key_of_nonempty : (m : Pairs) → is_empty m ≡ false → (k : Text) × (is_some (lookup k m) ≡ true)
key_of_nonempty [] h = absurd (cc)
key_of_nonempty ((k, v) ∷ m) h = (k, rw (==_refl k))

-- Every digest that has a bucket has a path in it.
abbrev pub NoOrphan : (B : Bolt) → Bolt.Tx B → Type 0
NoOrphan B x =
    (d : Text) → Bolt.has B x checksums d ≡ true → (k : Text) × (has_key B x checksums d k ≡ true)

module _ (B : Bolt) (L : IsLawful B) (root : Text) where
  open B use {Tx, has, entries, delete, delete_bucket}

  -- Another digest's key survives the call, and one of `g` is left.
  kept_by_delete :
      (x : Tx) (g p d : Text) {z : Tx}
      → delete x checksums g p ≡ ok z
      → is_empty (entries z checksums g) ≡ false
      → NoOrphan B x
      → has z checksums d ≡ true
      → (k : Text) × (has_key B z checksums d k ≡ true)
  kept_by_delete x g p d {z} hz e keep hd = elim (Bool-cases (g == d)) [
    | inl s ↦
        let (k, hk) = key_of_nonempty (entries z checksums g) e in (k, rw (← (==_iff g d).0 s) hk)
    | inr s ↦
        let (k, hk) = keep d (sym (L.has-delete x checksums g p checksums d hz) ∙ hd) in
        (k, ground (arith, L.get-delete x checksums g p checksums d k hz))
  ]

  kept_by_drop :
      (x : Tx) (g p d : Text) {z y : Tx}
      → delete x checksums g p ≡ ok z
      → delete_bucket z checksums g ≡ ok y
      → NoOrphan B x
      → has y checksums d ≡ true
      → (k : Text) × (has_key B y checksums d k ≡ true)
  kept_by_drop x g p d {z} hz hy keep hd =
      let (k, hk) = keep d (
        ground (
          arith,
          L.has-delete x checksums g p checksums d hz,
          L.has-delete_bucket z checksums g checksums d hy,
        )) in
      (
        k,
        ground (
          arith,
          L.has-delete_bucket z checksums g checksums d hy,
          L.get-delete x checksums g p checksums d k hz,
          L.get-delete_bucket z checksums g checksums d k hy,
        ),
      )

  remove_path-NoOrphan :
      (x : Tx) (rp g : Text) {y : Tx}
      → remove_path B root x (rp, g) ≡ ok y
      → NoOrphan B x
      → NoOrphan B y
  unfolding remove_path
  remove_path-NoOrphan x rp g {y} h keep d hd = elim (Bool-cases (has x checksums g)) [
    | inr e ↦ let same : x ≡ y = ground arith in subst (NoOrphan B) same keep d hd
    | inl e ↦
        let (z, hz, hy) = >>=-eq-ok (delete x checksums g (join root rp)) _ (rw e at h) in
        elim (Bool-cases (is_empty (entries z checksums g))) [
          | inr e' ↦
              let same : z ≡ y = ground arith in
              let (k, hk) = kept_by_delete x g (join root rp) d hz e' keep (rw same hd) in
              (k, rw (← same) hk)
          | inl e' ↦ kept_by_drop x g (join root rp) d hz (rw e' at hy) keep hd
        ]
  ]

  remove_paths-NoOrphan :
      (x : Tx) (es : Pairs) {y : Tx} → remove_paths B root x es ≡ ok y → NoOrphan B x → NoOrphan B y
  unfolding remove_paths
  remove_paths-NoOrphan x [] {y} h keep =
      let same : x ≡ y = ground arith in subst (NoOrphan B) same keep
  remove_paths-NoOrphan x ((rp, g) ∷ es) h keep =
      let (z, hz, hy) = >>=-eq-ok (remove_path B root x (rp, g)) _ h in
      remove_paths-NoOrphan z es hy (remove_path-NoOrphan x rp g hz keep)

  -- `RemoveRoot` leaves no digest's bucket without a path, if there was none before.
  pub remove_root_tx-NoOrphan :
      (x : Tx) {y : Tx} → remove_root_tx B root x ≡ ok y → NoOrphan B x → NoOrphan B y
  unfolding remove_root_tx
  remove_root_tx-NoOrphan x {y} h keep d hd = elim (Bool-cases (has x roots root)) [
    | inr e ↦ let same : x ≡ y = ground arith in subst (NoOrphan B) same keep d hd
    | inl e ↦
        let (z, hz, hy) = >>=-eq-ok (remove_paths B root x (entries x roots root)) _ (rw e at h) in
        let (k, hk) =
          remove_paths-NoOrphan x (entries x roots root) hz keep d
            (sym (L.has-delete_bucket z roots root checksums d hy) ∙ hd) in
        (k, rw (L.get-delete_bucket z roots root checksums d k hy) hk)
  ]
