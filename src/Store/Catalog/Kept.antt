-- ===== src/Store/Catalog/Kept.antt =====
-- What `SingleImportFile` of pkg/ocistore/import.go keeps of the records.
use mysnapshotter.Prelude.{
  ℕ, Bool, Bool-cases, inl, inr, true, false, none, List, [], ◌∷◌, ◌≡◌, refl, ap, ◌∙◌, any, arith,
  if◌then◌else◌, Text, ◌==◌, message, Result, ok, err,
}
use mysnapshotter.Extractor.System.{M, pure, fail, after, ◌>>◌}
use mysnapshotter.Store.Containerd.{Containerd, Image}
use mysnapshotter.Store.Images.{delete_leased}
use mysnapshotter.Store.Storing.{delete_all, keep_first}
use mysnapshotter.Store.Catalog.{Records, Deleted, Catalog}
use mysnapshotter.Store.Catalog.Deletes.{delete_leased-Deleted}

abbrev pub named_in : Text → List Image → Bool
named_in n imgs = any (λ i. n == i.name) imgs

-- The records but those with the names of some images.
abbrev pub without : List Image → Records → Records
without imgs r n = if named_in n imgs then none else r n

module _ {World : Type 0} (view : World → Records) where
  -- The records with the names of some images are gone, and no other has changed.
  abbrev pub Gone : List Image → Records → World → Type 0
  Gone imgs r w = (n : Text) → view w n ≡ without imgs r n

  -- The records with other names are the same.
  abbrev pub Same : List Image → Records → World → Type 0
  Same imgs r w = (n : Text) → without imgs (view w) n ≡ without imgs r n

  -- No record with another name has changed.
  abbrev Spared : List Image → Records → World → Type 0
  Spared imgs r w = (n : Text) → named_in n imgs ≡ false → view w n ≡ r n

  abbrev DeletedAll : List Image → Records → Result Bool × World → Type 0
  DeletedAll imgs r (ok false, w) = Gone imgs r w
  DeletedAll imgs r (ok true, w) = Spared imgs r w
  DeletedAll imgs r (err e, w) = ⊥

  abbrev pub Kept : List Image → Records → Result Image × World → Type 0
  Kept [] r (ok j, w) = ⊥
  Kept (img ∷ others) r (ok j, w) = (j ≡ img) × Gone others r w
  Kept imgs r (err e, w) = Same imgs r w

  Spared-Same : (imgs : List Image) (r : Records) (w : World) → Spared imgs r w → Same imgs r w
  Spared-Same imgs r w h n = elim (Bool-cases (named_in n imgs)) [
    | inl y ↦ rw y refl
    | inr y ↦ rw y (h n y)
  ]

  abbrev failed_or : Result (Unit {0}) → Bool → Bool
  failed_or q failed = elim q [ ok _ ↦ failed | err _ ↦ true ]

  after_others :
      (img : Image) (imgs : List Image) (r s : Records) (q : Result (Unit {0}))
      (x : Result Bool × World) (w : World)
      → s ≡ view w
      → Deleted view r img.name (q, w)
      → DeletedAll imgs s x
      → DeletedAll (img ∷ imgs) r (after x (λ failed. pure (failed_or q failed)))
  after_others img imgs r s (ok _) (ok false, w') w e d h = λ n. elim (Bool-cases (n == img.name)) [
    | inl y ↦ h n ∙ ap (λ t. if named_in n imgs then none else t n) (e ∙ d) ∙ ground arith
    | inr y ↦ h n ∙ ap (λ t. if named_in n imgs then none else t n) (e ∙ d) ∙ ground arith
  ]
  after_others img imgs r s (ok _) (ok true, w') w e d h =
      λ n o. h n (ground arith) ∙ ap (λ t. t n) (e ∙ d) ∙ ground arith
  after_others img imgs r s (err x) (ok false, w') w e d h =
      λ n o. h n ∙ ap (λ t. if named_in n imgs then none else t n) (e ∙ d) ∙ ground arith
  after_others img imgs r s (err x) (ok true, w') w e d h =
      λ n o. h n (ground arith) ∙ ap (λ t. t n) (e ∙ d)
  after_others img imgs r s q (err x, w') w e d h = absurd h

module _ (C : Containerd) (initiated : Bool) (L : Catalog C) where
  open C use {World}
  open L use {view}

  delete_all-DeletedAll :
      (rounds : ℕ) (imgs : List Image) (w : World)
      → DeletedAll view imgs (view w) (delete_all C initiated rounds imgs w)
  unfolding delete_all
  delete_all-DeletedAll rounds [] w = λ n. refl
  delete_all-DeletedAll rounds (img ∷ imgs) w =
      let x = delete_leased C initiated rounds img.name w in
      after_others view img imgs (view w) (view x.1) x.0 (delete_all C initiated rounds imgs x.1)
        x.1 refl (delete_leased-Deleted C initiated L rounds img.name w)
        (delete_all-DeletedAll rounds imgs x.1)

  abbrev end_keep : ℕ → Image → Bool → M World Image
  end_keep rounds img failed =
      if failed
      then (do
        delete_all C initiated rounds (img ∷ [])
        fail (message "failed removing imported images"))
      else pure img

  after_delete :
      (img : Image) (others : List Image) (r : Records) (x : Result Bool × World)
      → ((n : Text) → named_in n (img ∷ others) ≡ false → view x.1 n ≡ r n)
      → Kept view (img ∷ others) r (after x (λ _. fail (message "failed removing imported images")))
  after_delete img others r (ok b, w) h = Spared-Same view (img ∷ others) r w h
  after_delete img others r (err e, w) h = Spared-Same view (img ∷ others) r w h

  spared_after :
      (img : Image) (others : List Image) (r : Records) (s : Records) (x : Result Bool × World)
      → ((n : Text) → named_in n others ≡ false → s n ≡ r n)
      → DeletedAll view (img ∷ []) s x
      → (n : Text) → named_in n (img ∷ others) ≡ false
      → view x.1 n ≡ r n
  spared_after img others r s (ok false, w) h d n o =
      let a : named_in n (img ∷ []) ≡ false = ground arith in d n ∙ rw a (h n (ground arith))
  spared_after img others r s (ok true, w) h d n o = d n (ground arith) ∙ h n (ground arith)
  spared_after img others r s (err e, w) h d n o = absurd d

  after_all :
      (rounds : ℕ) (img : Image) (others : List Image) (r : Records) (x : Result Bool × World)
      → DeletedAll view others r x
      → Kept view (img ∷ others) r (after x (end_keep rounds img))
  after_all rounds img others r (ok false, w) h = (refl, h)
  after_all rounds img others r (ok true, w) h =
      let y = delete_all C initiated rounds (img ∷ []) w in
      after_delete img others r y
        (spared_after img others r (view w) y h (delete_all-DeletedAll rounds (img ∷ []) w))
  after_all rounds img others r (err e, w) h = absurd h

  -- If an image is returned it is the first of those imported, and exactly the records with a name of
  -- the others are gone: its own too, if another has its name. In case of an error no record with
  -- another name than theirs has changed.
  pub keep_first-Kept :
      (rounds : ℕ) (imgs : List Image) (w : World)
      → Kept view imgs (view w) (keep_first C initiated rounds imgs w)
  unfolding keep_first
  keep_first-Kept rounds [] w = λ n. refl
  keep_first-Kept rounds (img ∷ others) w =
      after_all rounds img others (view w) (delete_all C initiated rounds others w)
        (delete_all-DeletedAll rounds others w)
