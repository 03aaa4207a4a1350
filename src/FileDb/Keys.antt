-- ===== src/FileDb/Keys.antt =====
-- The keys that a view holds, and what `PathsForChecksum` reads of them.
use mysnapshotter.Prelude.{
  Text, ◌==◌, ◌≡◌, refl, List, [], ◌∷◌, map, Bool, false, any, is_some, arith, some, inl, inr, Any,
  Bool-cases,
}
use mysnapshotter.FileDb.Buckets.{Top, checksums, Pairs, lookup, Bolt, IsLawful}
use mysnapshotter.FileDb.{paths_for_checksum}

-- The path is in the list.
abbrev pub contains : Text → List Text → Bool
contains p = any (λ q. q == p)

pub contains-keys : (p : Text) (m : Pairs) → contains p (map (λ e. e.0) m) ≡ is_some (lookup p m)
contains-keys p [] = refl
contains-keys p ((j, v) ∷ m) = ground (arith, contains-keys p m)

pub Any-of_lookup : (k v : Text) (m : Pairs) → lookup k m ≡ some v → Any (λ e. e ≡ (k, v)) m
Any-of_lookup k v [] h = cc
Any-of_lookup k v ((j, w) ∷ m) h = ground (arith, Any-of_lookup k v m)

module _ (B : Bolt) where
  open B use {Tx, has, entries}

  abbrev pub has_key : Tx → Top → Text → Text → Bool
  has_key x t b k = is_some (lookup k (entries x t b))

  module _ (L : IsLawful B) where
    pub has_key_absent :
        (x : Tx) (t : Top) (b k : Text) → has x t b ≡ false → has_key x t b k ≡ false
    has_key_absent x t b k h = rw (L.entries_absent x t b h)

    -- The listed paths of a digest are the keys of its bucket.
    pub contains-paths_for_checksum :
        (x : Tx) (d p : Text) → contains p (paths_for_checksum B x d) ≡ has_key x checksums d p
    unfolding paths_for_checksum
    contains-paths_for_checksum x d p = elim (Bool-cases (has x checksums d)) [
      | inl h ↦ rw h (contains-keys p (entries x checksums d))
      | inr h ↦ rw h (rw (has_key_absent x checksums d p h))
    ]
