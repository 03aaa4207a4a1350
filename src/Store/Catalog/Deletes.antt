-- ===== src/Store/Catalog/Deletes.antt =====
-- `Delete` of pkg/ocistore/image.go as an operation on a map.
use mysnapshotter.Prelude.{
  ℕ, zero, suc, Bool, true, false, Option, none, some, [], ◌≡◌, refl, if◌then◌else◌, Text, ◌==◌,
  wrap, is_not_found, is_failed_precondition, Result, ok, err,
}
use mathlib.Core.Path.{subst}
use mysnapshotter.Extractor.System.{M, pure, fail, after, ◌>>=◌, named}
use mysnapshotter.Store.Containerd.{Info, Containerd, Image}
use mysnapshotter.Store.Views.{Keeps, bind-Keeps, named-Keeps, settled-Keeps, if-Keeps}
use mysnapshotter.Store.Snapshots.{
  not_initiated, checked, after_parent, after_remove, after_stat, chain_round,
  remove_snapshots_chain, deeper,
}
use mysnapshotter.Store.Images.{get_image, is_unpacked, delete_leased, delete_image}
use mysnapshotter.Store.Catalog.Leased.{leased-Did}
use mysnapshotter.Store.Catalog.{Records, unset, Deleted, Catalog}

module _ (C : Containerd) (initiated : Bool) (L : Catalog C) where
  open C use {World}
  open L use {view}

  after_parent-Keeps :
      (go : Text → Option ℕ → M World (Unit {0})) (parent : Text) (d : Option (Option ℕ))
      → ((key : Text) (depth : Option ℕ) → Keeps view (go key depth))
      → Keeps view (after_parent C initiated go parent d)
  after_parent-Keeps go parent none k = λ w. refl
  after_parent-Keeps go parent (some d) k =
      if-Keeps view (parent == []) (pure tt) (go parent d) (λ w. refl) (k parent d)

  chain_round-Keeps :
      (go : Text → Option ℕ → M World (Unit {0})) (key : Text) (depth : Option ℕ)
      → ((k : Text) (d : Option ℕ) → Keeps view (go k d))
      → Keeps view (chain_round C initiated go key depth)
  unfolding chain_round
  chain_round-Keeps go key depth k =
      settled-Keeps view (C.snapshot_stat key) (after_stat C initiated go key depth)
        (L.stat-Keeps key)
        (λ info.
          settled-Keeps view (C.snapshot_remove key)
            (after_remove C initiated
              (after_parent C initiated go info.parent (deeper C initiated depth)))
            (L.remove-Keeps key)
            (λ _. after_parent-Keeps go info.parent (deeper C initiated depth) k)
            (λ e.
              if-Keeps view (is_failed_precondition e) (pure tt)
                (fail (wrap "error removing snapshot" e)) (λ w. refl) (λ w. refl)))
        (λ e. if-Keeps view (is_not_found e) (pure tt) (fail e) (λ w. refl) (λ w. refl))

  remove_snapshots_chain-Keeps :
      (rounds : ℕ) (key : Text) (depth : Option ℕ)
      → Keeps view (remove_snapshots_chain C initiated rounds key depth)
  unfolding remove_snapshots_chain
  remove_snapshots_chain-Keeps zero key depth = λ w. refl
  remove_snapshots_chain-Keeps (suc rounds) key depth =
      chain_round-Keeps (λ k d. remove_snapshots_chain C initiated rounds k d) key depth
        (λ k d. remove_snapshots_chain-Keeps rounds k d)

  abbrev checked-Keeps :
      {A : Type 0} (m : M World A) → Keeps view m → Keeps view (checked C initiated m)
  checked-Keeps m k = if-Keeps view initiated m (fail not_initiated) k (λ w. refl)

  get_image-Keeps : (name : Text) → Keeps view (get_image C initiated name)
  unfolding get_image
  get_image-Keeps name =
      checked-Keeps _
        (named-Keeps view "getting image from store" (C.image_get name) (L.get-Keeps name))

  abbrev after_look : Result Info → M World Bool
  after_look found = elim found [
    | ok _ ↦ pure true
    | err e ↦
        if is_not_found e then pure false else fail (wrap "looking for image in snapshotter" e)
  ]

  is_unpacked-Keeps : (img : Image) → Keeps view (is_unpacked C initiated img)
  unfolding is_unpacked
  is_unpacked-Keeps img = checked-Keeps _ (
      bind-Keeps view (named "getting image rootfs" (C.root_fs img)) _
        (named-Keeps view "getting image rootfs" (C.root_fs img) (L.root_fs-Keeps img))
        (λ ids.
          settled-Keeps view (C.snapshot_stat (C.chain_id ids)) after_look
            (L.stat-Keeps (C.chain_id ids)) (λ _ w. refl)
            (λ e.
              if-Keeps view (is_not_found e) (pure false)
                (fail (wrap "looking for image in snapshotter" e)) (λ w. refl) (λ w. refl))))

  -- What removes the snapshots of an image, before its record.
  abbrev pub remove_layers : ℕ → Image → Bool → M World (Unit {0})
  remove_layers rounds img unpacked =
      if unpacked
      then (do
        diff_ids ← C.root_fs img
        remove_snapshots_chain C initiated rounds (C.chain_id diff_ids) none)
      else pure tt

  remove_layers-Keeps :
      (rounds : ℕ) (img : Image) (unpacked : Bool) → Keeps view (remove_layers rounds img unpacked)
  remove_layers-Keeps rounds img unpacked =
      if-Keeps view unpacked _ _
        (bind-Keeps view (C.root_fs img) _ (L.root_fs-Keeps img)
          (λ ids. remove_snapshots_chain-Keeps rounds (C.chain_id ids) none))
        (λ w. refl)

  -- After actions that leave the records alone, a deletion.
  past_actions :
      {A : Type 0} (name : Text) (r : Records) (x : Result A × World) (f : A → M World (Unit {0}))
      → view x.1 ≡ r
      → ((a : A) (w : World) → Deleted view (view w) name (f a w))
      → Deleted view r name (after x f)
  past_actions name r (ok a, w) f e k = subst (λ s. Deleted view s name (f a w)) e (k a w)
  past_actions name r (err x, w) f e k = e

  -- The record is deleted, or there is an error and no record has changed, whatever becomes of the
  -- snapshots.
  pub delete_leased-Deleted :
      (rounds : ℕ) (name : Text) (w : World)
      → Deleted view (view w) name (delete_leased C initiated rounds name w)
  unfolding delete_leased
  delete_leased-Deleted rounds name w =
      past_actions name (view w) (get_image C initiated name w) _ (get_image-Keeps name w)
        (λ img w1.
          past_actions name (view w1) (is_unpacked C initiated img w1) _ (is_unpacked-Keeps img w1)
            (λ u w2.
              past_actions name (view w2) (remove_layers rounds img u w2) _
                (remove_layers-Keeps rounds img u w2) (λ _ w3. L.delete_lem name w3)))

  -- The record is deleted, or there is an error and no change.
  abbrev pub Removed : Text → Records → Result (Unit {0}) → Records → Type 0
  Removed name r (ok _) s = s ≡ unset name r
  Removed name r (err e) s = s ≡ r

  Deleted-Removed :
      (name : Text) (r : Records) (x : Result (Unit {0}) × World)
      → Deleted view r name x
      → Removed name r x.0 (view x.1)
  Deleted-Removed name r (ok _, w) h = h
  Deleted-Removed name r (err e, w) h = h

  -- `Delete` removes the record of the image and changes no other, or there is an error and no record
  -- has changed, whatever becomes of the snapshots.
  pub delete_image-Removed :
      (rounds : ℕ) (name : Text) (w : World)
      → Removed name
          (view w)
          (delete_image C initiated rounds name w).0
          (view (delete_image C initiated rounds name w).1)
  unfolding delete_image
  delete_image-Removed rounds name w =
      leased-Did C initiated L (Removed name) (λ r e. refl) (delete_leased C initiated rounds name)
        w
        (λ w1.
          Deleted-Removed name (view w1) (delete_leased C initiated rounds name w1)
            (delete_leased-Deleted rounds name w1))
