-- ===== src/FileDb/Buckets.antt =====
-- What filedb calls of go.etcd.io/bbolt: two top-level buckets, their sub-buckets, and keys with
-- values in those. The store is not under this repository, so it is a parameter.
use mysnapshotter.Prelude.{
  ℕ, ◌≤◌, ◌<◌, Text, ◌==◌, if◌then◌else◌, ◌≡◌, List, [], ◌∷◌, length, Bool, true, false, ◌&&◌,
  Option, none, some, Result, ok, Error, Any,
}

-- `bktChecksums` and `bktRoots`.
pub data Top : Type 0 where
  checksums roots : Top

abbrev pub same_top : Top → Top → Bool
same_top checksums checksums = true
same_top roots roots = true
same_top _ _ = false

abbrev pub same_bucket : Top → Text → Top → Text → Bool
same_bucket t b t' b' = same_top t t' && b == b'

abbrev pub Pairs : Type 0
Pairs = List (Text × Text)

-- The value of the first pair with the key.
abbrev pub lookup : Text → Pairs → Option Text
lookup k [] = none
lookup k ((j, v) ∷ m) = if j == k then some v else lookup k m

-- A transaction's view of the database. `entries` is what `ForEach` visits in a sub-bucket, and
-- `Cursor().First()` gives its first key. `commit` is the error of committing, if there is one.
pub record Bolt : Type 1 where
  pub Tx : Type 0
  pub has : Tx → Top → Text → Bool
  pub entries : Tx → Top → Text → Pairs
  pub create_bucket : Tx → Top → Text → Result Tx
  pub put : Tx → Top → Text → Text → Text → Result Tx
  pub delete : Tx → Top → Text → Text → Result Tx
  pub delete_bucket : Tx → Top → Text → Result Tx
  pub commit : Tx → Option Error

-- `bolt.MaxKeySize`, and the keys that bolt accepts.
abbrev pub max_key_size : ℕ
max_key_size = 32768

abbrev pub IsKey : Text → Type 0
IsKey k = (0 < length k) × (length k ≤ max_key_size)

module _ (B : Bolt) where
  open B use {Tx, has, entries, create_bucket, put, delete, delete_bucket}

  -- The documented behaviour of these calls.
  pub record IsLawful : Type 0 where
    -- A missing bucket has no keys, and a bucket holds a key once.
    pub entries_absent : (x : Tx) (t : Top) (b : Text) → has x t b ≡ false → entries x t b ≡ []
    pub entries_once :
        (x : Tx) (t : Top) (b k v : Text)
        → Any (λ e. e ≡ (k, v)) (entries x t b)
        → lookup k (entries x t b) ≡ some v
    pub has-create :
        (x : Tx) (t : Top) (b : Text) {y : Tx} (t' : Top) (b' : Text)
        → create_bucket x t b ≡ ok y
        → has y t' b' ≡ (if same_bucket t b t' b' then true else has x t' b')
    pub get-create :
        (x : Tx) (t : Top) (b : Text) {y : Tx} (t' : Top) (b' k : Text)
        → create_bucket x t b ≡ ok y
        → lookup k (entries y t' b') ≡ lookup k (entries x t' b')
    pub has-put :
        (x : Tx) (t : Top) (b k v : Text) {y : Tx} (t' : Top) (b' : Text)
        → put x t b k v ≡ ok y
        → has y t' b' ≡ has x t' b'
    pub get-put :
        (x : Tx) (t : Top) (b k v : Text) {y : Tx} (t' : Top) (b' j : Text)
        → has x t b ≡ true
        → put x t b k v ≡ ok y
        → lookup j (entries y t' b')
          ≡ (if same_bucket t b t' b' && k == j then some v else lookup j (entries x t' b'))
    pub has-delete :
        (x : Tx) (t : Top) (b k : Text) {y : Tx} (t' : Top) (b' : Text)
        → delete x t b k ≡ ok y
        → has y t' b' ≡ has x t' b'
    pub get-delete :
        (x : Tx) (t : Top) (b k : Text) {y : Tx} (t' : Top) (b' j : Text)
        → delete x t b k ≡ ok y
        → lookup j (entries y t' b')
          ≡ (if same_bucket t b t' b' && k == j then none else lookup j (entries x t' b'))
    pub has-delete_bucket :
        (x : Tx) (t : Top) (b : Text) {y : Tx} (t' : Top) (b' : Text)
        → delete_bucket x t b ≡ ok y
        → has y t' b' ≡ (if same_bucket t b t' b' then false else has x t' b')
    pub get-delete_bucket :
        (x : Tx) (t : Top) (b : Text) {y : Tx} (t' : Top) (b' k : Text)
        → delete_bucket x t b ≡ ok y
        → lookup k (entries y t' b')
          ≡ (if same_bucket t b t' b' then none else lookup k (entries x t' b'))
    -- The calls succeed on keys that bolt accepts, and on buckets that exist.
    pub create_ok :
        (x : Tx) (t : Top) (b : Text) → IsKey b → (y : Tx) × (create_bucket x t b ≡ ok y)
    pub put_ok :
        (x : Tx) (t : Top) (b k v : Text)
        → has x t b ≡ true
        → IsKey k
        → (y : Tx) × (put x t b k v ≡ ok y)
    pub delete_ok :
        (x : Tx) (t : Top) (b k : Text) → has x t b ≡ true → (y : Tx) × (delete x t b k ≡ ok y)
    pub delete_bucket_ok :
        (x : Tx) (t : Top) (b : Text) → has x t b ≡ true → (y : Tx) × (delete_bucket x t b ≡ ok y)
