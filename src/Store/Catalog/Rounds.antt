-- ===== src/Store/Catalog/Rounds.antt =====
-- The loop of `fetch` that creates the record of an image or updates it.
use mysnapshotter.Prelude.{
  ℕ, suc, Bool-cases, inl, inr, some, [], ◌≡◌, refl, ap, ◌∙◌, if◌then◌else◌, is_not_found,
  is_already_exists, Result, ok, err,
}
use mysnapshotter.Extractor.System.{M, pure, fail, after, settled, ◌>>=◌, attempt}
use mysnapshotter.Store.Containerd.{Containerd, Image}
use mysnapshotter.Store.Catalog.{Records, set, Updated, Created, Catalog}
use mysnapshotter.Store.Storing.{store_round, store_image}

module _ (C : Containerd) (L : Catalog C) where
  open C use {World}
  open L use {view}

  -- What the loop leaves: the image under its name, or no change and an error.
  abbrev pub Stored : Image → Records → Result Image × World → Type 0
  Stored img r (ok j, w) = (j ≡ img) × (view w ≡ set img r)
  Stored img r (err e, w) = view w ≡ r

  abbrev update_end : (Image → M World Image) → Image → Result Image → M World Image
  update_end again img u = elim u [
    | ok updated ↦ pure updated
    | err e ↦ if is_not_found e then again img else fail e
  ]

  -- An update of a record that is there does not ask for another round.
  update_once :
      (again again' : Image → M World Image) (img old : Image) (r : Records)
      (x : Result Image × World)
      → r img.name ≡ some old
      → Updated view r [] img x
      → after (settled x) (update_end again img) ≡ after (settled x) (update_end again' img)
  update_once again again' img old r (ok j, w) h u = refl
  update_once again again' img old r (err e, w) h (v, absent) = elim (Bool-cases (is_not_found e)) [
    | inl y ↦ absurd (let gone = absent y in cc)
    | inr y ↦ rw y refl
  ]

  abbrev create_end : (Image → M World Image) → Image → Result Image → M World Image
  create_end again img r = elim r [
    | ok created ↦ pure created
    | err e ↦
        if is_already_exists e
        then (do u ← attempt (C.image_update img []); update_end again img u)
        else fail e
  ]

  create_once :
      (again again' : Image → M World Image) (img : Image) (r : Records) (x : Result Image × World)
      → Created view r img x
      → after (settled x) (create_end again img) ≡ after (settled x) (create_end again' img)
  create_once again again' img r (ok j, w) c = refl
  create_once again again' img r (err e, w) (v, there) = elim (Bool-cases (is_already_exists e)) [
    | inr y ↦ rw y refl
    | inl y ↦ rw y (
        let (old, o) = there y in
        update_once again again' img old (view w) (C.image_update img [] w)
          (ap (λ s. s img.name) v ∙ o) (L.update_lem img [] w))
  ]

  store_round-once :
      (again again' : Image → M World Image) (img : Image) (w : World)
      → store_round C again img w ≡ store_round C again' img w
  unfolding store_round
  store_round-once again again' img w =
      create_once again again' img (view w) (C.image_create img w) (L.create_lem img w)

  -- If nothing else changes the image store, the loop never takes a second round: any number of
  -- rounds but 0 gives what one round gives.
  pub store_image-once :
      (rounds : ℕ) (img : Image) (w : World)
      → store_image C (suc rounds) img w ≡ store_image C 1 img w
  unfolding store_image
  store_image-once rounds img w =
      store_round-once (λ i. store_image C rounds i) (λ i. store_image C 0 i) img w

  update-Stored :
      (again : Image → M World Image) (img old : Image) (r : Records) (x : Result Image × World)
      → r img.name ≡ some old
      → Updated view r [] img x
      → Stored img r (after (settled x) (update_end again img))
  update-Stored again img old r (ok j, w) h (_, _, m, v) = (m, v ∙ ap (λ k. set k r) m)
  update-Stored again img old r (err e, w) h (v, absent) = elim (Bool-cases (is_not_found e)) [
    | inl y ↦ absurd (let gone = absent y in cc)
    | inr y ↦ rw y v
  ]

  restored :
      (img : Image) (r s : Records) (x : Result Image × World)
      → s ≡ r
      → Stored img s x
      → Stored img r x
  restored img r s (ok j, w) e h = (h.0, h.1 ∙ ap (set img) e)
  restored img r s (err x, w) e h = h ∙ e

  create-Stored :
      (again : Image → M World Image) (img : Image) (r : Records) (x : Result Image × World)
      → Created view r img x
      → Stored img r (after (settled x) (create_end again img))
  create-Stored again img r (ok j, w) (_, m, v) = (m, v)
  create-Stored again img r (err e, w) (v, there) = elim (Bool-cases (is_already_exists e)) [
    | inr y ↦ rw y v
    | inl y ↦ rw y (
        let (old, o) = there y in
        restored img r (view w) _ v (
          update-Stored again img old (view w) (C.image_update img [] w)
            (ap (λ s. s img.name) v ∙ o) (L.update_lem img [] w)))
  ]

  -- With any rounds but 0 the loop is one step on the map: the image stands under its name
  -- afterwards, whole, and all other records are as before, or there is an error and no change.
  pub store_image-Stored :
      (rounds : ℕ) (img : Image) (w : World)
      → Stored img (view w) (store_image C (suc rounds) img w)
  unfolding store_image store_round
  store_image-Stored rounds img w =
      create-Stored (λ i. store_image C rounds i) img (view w) (C.image_create img w)
        (L.create_lem img w)
