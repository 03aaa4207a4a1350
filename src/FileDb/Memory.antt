-- ===== src/FileDb/Memory.antt =====
-- A bolt store in memory, which meets the documented behaviour.
use mysnapshotter.Prelude.{
  Text, ◌==◌, if◌then◌else◌, ◌≡◌, refl, [], ◌∷◌, length, ltb, leb, Bool, true, false, ◌&&◌, none,
  some, ok, err, external, arith, Any, inl, inr,
}
use mysnapshotter.FileDb.Buckets.{Top, same_bucket, Pairs, lookup, Bolt, IsLawful, max_key_size}

-- Every bucket's presence and its pairs, later writes in front.
pub record BucketMap : Type 0 where
  pub present : Top → Text → Bool
  pub pairs : Top → Text → Pairs

abbrev drop_key : Text → Pairs → Pairs
drop_key k [] = []
drop_key k ((j, v) ∷ m) = let rest = drop_key k m in if j == k then rest else (j, v) ∷ rest

-- Each key once, with its last value.
abbrev latest : Pairs → Pairs
latest [] = []
latest ((k, v) ∷ m) = (k, v) ∷ drop_key k (latest m)

abbrev is_key : Text → Bool
is_key k = ltb 0 (length k) && leb (length k) max_key_size

abbrev pub no_buckets : BucketMap
no_buckets = record { present = λ t b. false; pairs = λ t b. [] }

abbrev visible : BucketMap → Top → Text → Pairs
visible x t b = if x.present t b then latest (x.pairs t b) else []

abbrev update_present : BucketMap → Top → Text → Bool → Pairs → BucketMap
update_present x t b v ps = record {
  present = λ t' b'. if same_bucket t b t' b' then v else x.present t' b';
  pairs = λ t' b'. if same_bucket t b t' b' then ps else x.pairs t' b';
}

abbrev put_pair : BucketMap → Top → Text → Text → Text → BucketMap
put_pair x t b k v = record x {
  pairs = λ t' b'. if same_bucket t b t' b' then (k, v) ∷ x.pairs t' b' else x.pairs t' b';
}

abbrev pub memory : Bolt
memory = record {
  Tx = BucketMap;
  has = λ x t b. x.present t b;
  entries = visible;
  create_bucket = λ x t b.
      if is_key b
      then ok (update_present x t b true (visible x t b))
      else err (external "bucket name");
  put = λ x t b k v. if is_key k then ok (put_pair x t b k v) else err (external "key");
  delete = λ x t b k. ok (record x {
    pairs = λ t' b'.
        if same_bucket t b t' b' then drop_key k (latest (x.pairs t' b')) else x.pairs t' b';
  });
  delete_bucket = λ x t b. ok (update_present x t b false []);
  commit = λ x. none;
}

lookup-drop_key :
    (k j : Text) (m : Pairs) → lookup j (drop_key k m) ≡ (if k == j then none else lookup j m)
lookup-drop_key k j [] = ground arith
lookup-drop_key k j ((i, v) ∷ m) = ground (arith, lookup-drop_key k j m)

lookup-latest : (j : Text) (m : Pairs) → lookup j (latest m) ≡ lookup j m
lookup-latest j [] = refl
lookup-latest j ((i, v) ∷ m) = ground (arith, lookup-drop_key i j (latest m), lookup-latest j m)

drop_key-Any :
    (i : Text) (m : Pairs) (k v : Text)
    → Any (λ e. e ≡ (k, v)) (drop_key i m)
    → Any (λ e. e ≡ (k, v)) m × ((i == k) ≡ false)
drop_key-Any i [] k v h = absurd h
drop_key-Any i ((j, w) ∷ m) k v h = ground (arith, drop_key-Any i m k v)

latest_once :
    (m : Pairs) (k v : Text) → Any (λ e. e ≡ (k, v)) (latest m) → lookup k (latest m) ≡ some v
latest_once [] k v h = absurd h
latest_once ((j, w) ∷ m) k v (inl e) = ground arith
latest_once ((j, w) ∷ m) k v (inr h) =
    ground
      (arith, drop_key-Any j (latest m) k v h, latest_once m k v, lookup-drop_key j k (latest m))

same_bucket-eq :
    (x : BucketMap) (t : Top) (b : Text) (t' : Top) (b' : Text)
    → same_bucket t b t' b' ≡ true
    → (visible x t' b' ≡ visible x t b)
      × (x.pairs t' b' ≡ x.pairs t b)
      × (x.present t' b' ≡ x.present t b)
same_bucket-eq x Top.checksums b Top.checksums b' h = ground arith
same_bucket-eq x Top.roots b Top.roots b' h = ground arith
same_bucket-eq x Top.checksums b Top.roots b' h = cc
same_bucket-eq x Top.roots b Top.checksums b' h = cc

pub memory-IsLawful : IsLawful memory
memory-IsLawful = record {
  entries_absent = λ x t b h. ground arith;
  entries_once = λ x t b k v h. ground (arith, latest_once (x.pairs t b) k v);
  has-create = λ x t b {y} t' b' h. ground arith;
  get-create = λ x t b {y} t' b' k h.
      ground (arith, same_bucket-eq x t b t' b', lookup-latest k (latest (x.pairs t b)));
  has-put = λ x t b k v {y} t' b' h. ground arith;
  get-put = λ x t b k v {y} t' b' j p h. ground (
    arith,
    same_bucket-eq x t b t' b',
    lookup-latest j (x.pairs t' b'),
    lookup-drop_key k j (latest (x.pairs t' b')),
  );
  has-delete = λ x t b k {y} t' b' h. ground arith;
  get-delete = λ x t b k {y} t' b' j h. ground (
    arith,
    lookup-latest j (drop_key k (latest (x.pairs t' b'))),
    lookup-drop_key k j (latest (x.pairs t' b')),
  );
  has-delete_bucket = λ x t b {y} t' b' h. ground arith;
  get-delete_bucket = λ x t b {y} t' b' k h. ground arith;
  create_ok = λ x t b h. (update_present x t b true (visible x t b), ground arith);
  put_ok = λ x t b k v p h. (put_pair x t b k v, ground arith);
  delete_ok = λ x t b k h. (_, refl);
  delete_bucket_ok = λ x t b h. (_, refl);
}
