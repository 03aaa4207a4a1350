-- ===== src/FileDb/RemoveRoot.antt =====
-- What `RemoveRoot` leaves in the database.
use mysnapshotter.Prelude.{
  ◌≡◌, refl, ◌∙◌, inl, inr, Bool, ◌&&◌, not, [], ◌∷◌, arith, Bool-cases, any, Text, ◌==◌, ok,
  >>=-eq-ok,
}
use mysnapshotter.Paths.{join}
use mysnapshotter.FileDb.Buckets.{checksums, roots, Pairs, Bolt, IsLawful}
use mysnapshotter.FileDb.{
  is_empty, remove_path, remove_paths, remove_root_tx, paths_for_checksum, root_exists,
}
use mysnapshotter.FileDb.Keys.{contains, has_key, has_key_absent, contains-paths_for_checksum}

-- The root's bucket has a relative path that gives `p`, with the digest `d`.
abbrev pub indexes : Text → Text → Text → Pairs → Bool
indexes root d p = any (λ e. (e.1 == d) && (join root e.0 == p))

module _ (B : Bolt) (L : IsLawful B) (root : Text) where
  open B use {Tx, has, entries, delete, delete_bucket}

  -- One round of the loop: the path is no longer listed for the digest.
  remove_path-key :
      (x : Tx) (rp g : Text) {y : Tx} (d p : Text)
      → remove_path B root x (rp, g) ≡ ok y
      → has_key B y checksums d p
        ≡ (not ((g == d) && (join root rp == p)) && has_key B x checksums d p)
  unfolding remove_path
  remove_path-key x rp g {y} d p h = elim (Bool-cases (has x checksums g)) [
    | inr e ↦ ground (arith, has_key_absent B L x checksums g p e)
    | inl e ↦
        let (z, hz, hy) = >>=-eq-ok (delete x checksums g (join root rp)) _ (rw e at h) in
        let gone = L.get-delete x checksums g (join root rp) checksums d p hz in
        elim (Bool-cases (is_empty (entries z checksums g))) [
          | inr e' ↦ ground (arith)
          | inl e' ↦ ground (arith, L.get-delete_bucket z checksums g checksums d p (rw e' at hy))
        ]
  ]

  remove_path-root_has :
      (x : Tx) (rp g : Text) {y : Tx} (r : Text)
      → remove_path B root x (rp, g) ≡ ok y
      → has y roots r ≡ has x roots r
  unfolding remove_path
  remove_path-root_has x rp g {y} r h = elim (Bool-cases (has x checksums g)) [
    | inr e ↦ ground arith
    | inl e ↦
        let (z, hz, hy) = >>=-eq-ok (delete x checksums g (join root rp)) _ (rw e at h) in
        let same = L.has-delete x checksums g (join root rp) roots r hz in
        elim (Bool-cases (is_empty (entries z checksums g))) [
          | inr e' ↦ ground arith
          | inl e' ↦ ground (arith, L.has-delete_bucket z checksums g roots r (rw e' at hy))
        ]
  ]

  remove_paths-key :
      (x : Tx) (es : Pairs) {y : Tx} (d p : Text)
      → remove_paths B root x es ≡ ok y
      → has_key B y checksums d p ≡ (not (indexes root d p es) && has_key B x checksums d p)
  unfolding remove_paths
  remove_paths-key x [] d p h = ground arith
  remove_paths-key x ((rp, g) ∷ es) d p h =
      let (z, hz, hy) = >>=-eq-ok (remove_path B root x (rp, g)) _ h in
      ground (arith, remove_path-key x rp g d p hz, remove_paths-key z es d p hy)

  remove_paths-root_has :
      (x : Tx) (es : Pairs) {y : Tx} (r : Text)
      → remove_paths B root x es ≡ ok y
      → has y roots r ≡ has x roots r
  unfolding remove_paths
  remove_paths-root_has x [] r h = ground arith
  remove_paths-root_has x ((rp, g) ∷ es) r h =
      let (z, hz, hy) = >>=-eq-ok (remove_path B root x (rp, g)) _ h in
      remove_paths-root_has z es r hy ∙ remove_path-root_has x rp g r hz

  -- If `RemoveRoot` returns no error, a path is listed for a digest afterwards exactly if it was
  -- before, and the root's index does not lead to it under that digest.
  pub remove_root_tx-paths :
      (x : Tx) {y : Tx} (d p : Text)
      → remove_root_tx B root x ≡ ok y
      → contains p (paths_for_checksum B y d)
        ≡ (not (indexes root d p (entries x roots root)) && contains p (paths_for_checksum B x d))
  unfolding remove_root_tx
  remove_root_tx-paths x {y} d p h = elim (Bool-cases (has x roots root)) [
    | inr e ↦ ground (arith, L.entries_absent x roots root e)
    | inl e ↦
        let (z, hz, hy) = >>=-eq-ok (remove_paths B root x (entries x roots root)) _ (rw e at h) in
        ground (
          arith,
          contains-paths_for_checksum B L x d p,
          contains-paths_for_checksum B L y d p,
          remove_paths-key x (entries x roots root) d p hz,
          L.get-delete_bucket z roots root checksums d p hy,
        )
  ]

  -- If `RemoveRoot` returns no error, the root is no longer tracked, and every other root is tracked
  -- as before.
  pub remove_root_tx-roots :
      (x : Tx) {y : Tx} (r : Text)
      → remove_root_tx B root x ≡ ok y
      → root_exists B y r ≡ (not (root == r) && root_exists B x r)
  unfolding remove_root_tx root_exists
  remove_root_tx-roots x {y} r h = elim (Bool-cases (has x roots root)) [
    | inr e ↦ ground arith
    | inl e ↦
        let (z, hz, hy) = >>=-eq-ok (remove_paths B root x (entries x roots root)) _ (rw e at h) in
        ground (
          arith,
          remove_paths-root_has x (entries x roots root) r hz,
          L.has-delete_bucket z roots root roots r hy,
        )
  ]

  remove_path-total : (x : Tx) (e : Text × Text) → (y : Tx) × (remove_path B root x e ≡ ok y)
  unfolding remove_path
  remove_path-total x (rp, g) = elim (Bool-cases (has x checksums g)) [
    | inr e ↦ (x, rw e)
    | inl e ↦
        let (z, hz) = L.delete_ok x checksums g (join root rp) e in
        elim (Bool-cases (is_empty (entries z checksums g))) [
          | inr e' ↦ (z, rw (e, hz, e'))
          | inl e' ↦
              let (y, hy) =
                L.delete_bucket_ok z checksums g
                  (L.has-delete x checksums g (join root rp) checksums g hz ∙ e) in
              (y, rw (e, hz, e') hy)
        ]
  ]

  remove_paths-total : (x : Tx) (es : Pairs) → (y : Tx) × (remove_paths B root x es ≡ ok y)
  unfolding remove_paths
  remove_paths-total x [] = (x, refl)
  remove_paths-total x (e ∷ es) =
      let (z, hz) = remove_path-total x e in let (y, hy) = remove_paths-total z es in (y, rw hz hy)

  -- The function that `RemoveRoot` runs in its transaction never returns an error.
  pub remove_root_tx-total : (x : Tx) → (y : Tx) × (remove_root_tx B root x ≡ ok y)
  unfolding remove_root_tx
  remove_root_tx-total x = elim (Bool-cases (has x roots root)) [
    | inr e ↦ (x, rw e)
    | inl e ↦
        let (z, hz) = remove_paths-total x (entries x roots root) in
        let (y, hy) =
          L.delete_bucket_ok z roots root
            (remove_paths-root_has x (entries x roots root) root hz ∙ e) in
        (y, rw (e, hz) hy)
  ]
