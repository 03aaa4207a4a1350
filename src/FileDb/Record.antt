-- ===== src/FileDb/Record.antt =====
-- What `RecordAll` leaves in the database.
use mysnapshotter.Prelude.{
  ◌≡◌, ◌∙◌, inl, inr, Bool, true, ◌&&◌, ◌||◌, not, some, List, [], ◌∷◌, arith, if◌then◌else◌,
  Bool-cases, any, Text, ◌==◌, ok, context, >>=-eq-ok, context-eq-ok,
}
use mysnapshotter.Paths.{join}
use mysnapshotter.FileDb.Buckets.{Top, checksums, roots, same_bucket, lookup, Bolt, IsLawful}
use mysnapshotter.FileDb.{Entry, record_path, record_paths, record_entry}
use mysnapshotter.FileDb.Keys.{has_key}

-- An entry with the digest `d`, which is not empty, lists a path, not empty, that lies at `p`
-- under the root.
abbrev pub lists_path : Text → Text → List Text → Bool
lists_path root p = any (λ rp. not (rp == []) && (join root rp == p))

abbrev pub records : Text → Text → Text → List Entry → Bool
records root d p =
    any (λ e. not (e.digest == []) && (e.digest == d) && lists_path root p e.rel_paths)

module _ (B : Bolt) (L : IsLawful B) (root : Text) where
  open B use {Tx, has, entries, create_bucket, put}

  record_path-has :
      (g : Text) (x : Tx) (rp : Text) {y : Tx} (t : Top) (b : Text)
      → record_path B root g x rp ≡ ok y
      → has y t b ≡ has x t b
  unfolding record_path
  record_path-has g x rp t b h = elim (Bool-cases (rp == [])) [
    | inl e ↦ ground arith
    | inr e ↦
        let (z, hz, hy) = >>=-eq-ok (put x checksums g (join root rp) []) _ (rw e at h) in
        ground (
          arith,
          L.has-put x checksums g (join root rp) [] t b hz,
          L.has-put z roots root rp g t b hy,
        )
  ]

  record_path-key :
      (g : Text) (x : Tx) (rp : Text) {y : Tx} (d p : Text)
      → has x checksums g ≡ true
      → has x roots root ≡ true
      → record_path B root g x rp ≡ ok y
      → has_key B y checksums d p
        ≡ (((g == d) && (not (rp == []) && (join root rp == p))) || has_key B x checksums d p)
  unfolding record_path
  record_path-key g x rp d p hg hr h = elim (Bool-cases (rp == [])) [
    | inl e ↦ ground arith
    | inr e ↦
        let (z, hz, hy) = >>=-eq-ok (put x checksums g (join root rp) []) _ (rw e at h) in
        ground (
          arith,
          L.has-put x checksums g (join root rp) [] roots root hz,
          L.get-put x checksums g (join root rp) [] checksums d p hg hz,
          L.get-put z roots root rp g checksums d p _ hy,
        )
  ]

  record_path-root :
      (g : Text) (x : Tx) (rp : Text) {y : Tx} (r j : Text)
      → has x checksums g ≡ true
      → has x roots root ≡ true
      → record_path B root g x rp ≡ ok y
      → lookup j (entries y roots r) ≡ (
          if (root == r) && (not (rp == []) && (rp == j))
          then some g
          else lookup j (entries x roots r))
  unfolding record_path
  record_path-root g x rp r j hg hr h = elim (Bool-cases (rp == [])) [
    | inl e ↦ ground arith
    | inr e ↦
        let (z, hz, hy) = >>=-eq-ok (put x checksums g (join root rp) []) _ (rw e at h) in
        ground (
          arith,
          L.has-put x checksums g (join root rp) [] roots root hz,
          L.get-put x checksums g (join root rp) [] roots r j hg hz,
          L.get-put z roots root rp g roots r j _ hy,
        )
  ]

  record_paths-has :
      (g : Text) (x : Tx) (rps : List Text) {y : Tx} (t : Top) (b : Text)
      → record_paths B root g x rps ≡ ok y
      → has y t b ≡ has x t b
  unfolding record_paths
  record_paths-has g x [] t b h = ground arith
  record_paths-has g x (rp ∷ rps) t b h =
      let (z, hz, hy) = >>=-eq-ok (record_path B root g x rp) _ h in
      record_paths-has g z rps t b hy ∙ record_path-has g x rp t b hz

  record_paths-key :
      (g : Text) (x : Tx) (rps : List Text) {y : Tx} (d p : Text)
      → has x checksums g ≡ true
      → has x roots root ≡ true
      → record_paths B root g x rps ≡ ok y
      → has_key B y checksums d p
        ≡ (((g == d) && lists_path root p rps) || has_key B x checksums d p)
  unfolding record_paths
  record_paths-key g x [] d p hg hr h = ground arith
  record_paths-key g x (rp ∷ rps) d p hg hr h =
      let (z, hz, hy) = >>=-eq-ok (record_path B root g x rp) _ h in
      let hg' = record_path-has g x rp checksums g hz ∙ hg in
      let hr' = record_path-has g x rp roots root hz ∙ hr in
      ground (arith, record_path-key g x rp d p hg hr hz, record_paths-key g z rps d p hg' hr' hy)

  -- The digest that the last of these paths spelled `j` gets, from the one it had.
  abbrev pub noted : Text → Text → List Text → Bool
  noted r j rps = (root == r) && any (λ rp. not (rp == []) && (rp == j)) rps

  record_paths-root :
      (g : Text) (x : Tx) (rps : List Text) {y : Tx} (r j : Text)
      → has x checksums g ≡ true
      → has x roots root ≡ true
      → record_paths B root g x rps ≡ ok y
      → lookup j (entries y roots r)
        ≡ (if noted r j rps then some g else lookup j (entries x roots r))
  unfolding record_paths
  record_paths-root g x [] r j hg hr h = ground arith
  record_paths-root g x (rp ∷ rps) r j hg hr h =
      let (z, hz, hy) = >>=-eq-ok (record_path B root g x rp) _ h in
      let hg' = record_path-has g x rp checksums g hz ∙ hg in
      let hr' = record_path-has g x rp roots root hz ∙ hr in
      ground (arith, record_path-root g x rp r j hg hr hz, record_paths-root g z rps r j hg' hr' hy)

  pub record_entry-has :
      (x : Tx) (e : Entry) {y : Tx} (t : Top) (b : Text)
      → record_entry B root x e ≡ ok y
      → has y t b ≡ ((not (e.digest == []) && same_bucket checksums e.digest t b) || has x t b)
  unfolding record_entry
  record_entry-has x e t b h = elim (Bool-cases (e.digest == [])) [
    | inl d ↦ ground arith
    | inr d ↦
        let (z, hz, hy) =
          >>=-eq-ok (context "creating checksum bucket" (create_bucket x checksums e.digest)) _
            (rw d at h) in
        let hz' = context-eq-ok _ (create_bucket x checksums e.digest) hz in
        ground (
          arith,
          L.has-create x checksums e.digest t b hz',
          record_paths-has e.digest z e.rel_paths t b hy,
        )
  ]

  pub record_entry-root_has :
      (x : Tx) (e : Entry) {y : Tx} (r : Text)
      → record_entry B root x e ≡ ok y
      → has y roots r ≡ has x roots r
  record_entry-root_has x e r h = ground (arith, record_entry-has x e roots r h)

  pub record_entry-key :
      (x : Tx) (e : Entry) {y : Tx} (d p : Text)
      → has x roots root ≡ true
      → record_entry B root x e ≡ ok y
      → has_key B y checksums d p ≡ (
          (not (e.digest == []) && (e.digest == d) && lists_path root p e.rel_paths)
          || has_key B x checksums d p)
  unfolding record_entry
  record_entry-key x e d p hr h = elim (Bool-cases (e.digest == [])) [
    | inl n ↦ ground arith
    | inr n ↦
        let (z, hz, hy) =
          >>=-eq-ok (context "creating checksum bucket" (create_bucket x checksums e.digest)) _
            (rw n at h) in
        let hz' = context-eq-ok _ (create_bucket x checksums e.digest) hz in
        ground (
          arith,
          L.has-create x checksums e.digest checksums e.digest hz',
          L.has-create x checksums e.digest roots root hz',
          L.get-create x checksums e.digest checksums d p hz',
          record_paths-key e.digest z e.rel_paths d p _ _ hy,
        )
  ]

  pub record_entry-root :
      (x : Tx) (e : Entry) {y : Tx} (r j : Text)
      → has x roots root ≡ true
      → record_entry B root x e ≡ ok y
      → lookup j (entries y roots r) ≡ (
          if not (e.digest == []) && noted r j e.rel_paths
          then some e.digest
          else lookup j (entries x roots r))
  unfolding record_entry
  record_entry-root x e r j hr h = elim (Bool-cases (e.digest == [])) [
    | inl n ↦ ground arith
    | inr n ↦
        let (z, hz, hy) =
          >>=-eq-ok (context "creating checksum bucket" (create_bucket x checksums e.digest)) _
            (rw n at h) in
        let hz' = context-eq-ok _ (create_bucket x checksums e.digest) hz in
        ground (
          arith,
          L.has-create x checksums e.digest checksums e.digest hz',
          L.has-create x checksums e.digest roots root hz',
          L.get-create x checksums e.digest roots r j hz',
          record_paths-root e.digest z e.rel_paths r j _ _ hy,
        )
  ]
