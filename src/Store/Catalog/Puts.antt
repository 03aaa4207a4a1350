-- ===== src/Store/Catalog/Puts.antt =====
-- `importFunc` stores its images: the loop over them, as operations on a map.
use mysnapshotter.Prelude.{
  ℕ, suc, Bool-cases, inl, inr, Option, none, some, List, [], ◌∷◌, ◌≡◌, refl, sym, ap, ◌∙◌,
  if◌then◌else◌, take, Text, is_not_found, Result, ok, err,
}
use mysnapshotter.Extractor.System.{M, pure, fail, after, settled, ◌>>=◌}
use mysnapshotter.Store.Containerd.{Containerd, Image}
use mysnapshotter.Store.Catalog.{Records, set, merge, Updated, Created, Catalog}
use mysnapshotter.Store.Storing.{put_image, put_images}

-- The record that an image becomes: it is merged into an old one.
abbrev pub put_value : List Text → Image → Option Image → Image
put_value fields img none = img
put_value fields img (some old) = merge fields old img

abbrev pub put : List Text → Image → Records → Records
put fields img r = set (put_value fields img (r img.name)) r

unfoldable pub put_all : List Text → List Image → Records → Records
put_all fields [] r = r
put_all fields (img ∷ imgs) r = put_all fields imgs (put fields img r)

module _ {World : Type 0} (view : World → Records) where
  abbrev pub PutOne : List Text → Image → Records → Result Image × World → Type 0
  PutOne fields img r (ok j, w) =
      (view w ≡ put fields img r) × (j ≡ put_value fields img (r img.name))
  PutOne fields img r (err e, w) = view w ≡ r

  abbrev pub PutMany : List Text → List Image → Records → Result (List Image) × World → Type 0
  PutMany fields imgs r (ok js, w) = view w ≡ put_all fields imgs r
  PutMany fields imgs r (err e, w) = (k : ℕ) × (view w ≡ put_all fields (take k imgs) r)

  after_create :
      (fields : List Text) (img : Image) (r s : Records) (x : Result Image × World)
      → r img.name ≡ none
      → s ≡ r
      → Created view s img x
      → PutOne fields img r x
  after_create fields img r s (ok j, w) a e c = (
    c.2 ∙ ap (λ t. set img t) e ∙ ap (λ o. set (put_value fields img o) r) (sym a),
    c.1 ∙ ap (put_value fields img) (sym a),
  )
  after_create fields img r s (err x, w) a e c = c.0 ∙ e

  after_update :
      (fields : List Text) (img : Image) (r : Records) (create : M World Image)
      (x : Result Image × World)
      → ((w : World) → Created view (view w) img (create w))
      → Updated view r fields img x
      → PutOne fields img r (
          after
            (settled x)
            (λ q. elim q [ ok i ↦ pure i | err e ↦ if is_not_found e then create else fail e ]))
  after_update fields img r create (ok j, w) c (old, o, m, v) =
      let at : put_value fields img (r img.name) ≡ merge fields old img =
        ap (put_value fields img) o in
      (v ∙ ap (λ k. set k r) (m ∙ sym at), m ∙ sym at)
  after_update fields img r create (err e, w) c (v, absent) = elim (Bool-cases (is_not_found e)) [
    | inl y ↦ rw y (after_create fields img r (view w) (create w) (absent y) v (c w))
    | inr y ↦ rw y v
  ]

module _ (C : Containerd) (L : Catalog C) where
  open C use {World}
  open L use {view}

  pub put_image-PutOne :
      (fields : List Text) (img : Image) (w : World)
      → PutOne view fields img (view w) (put_image C fields img w)
  unfolding put_image
  put_image-PutOne fields img w =
      after_update view fields img (view w) (C.image_create img) (C.image_update img fields w)
        (L.create_lem img) (L.update_lem img fields w)

  abbrev keep_going : List Text → List Image → Image → M World (List Image)
  keep_going fields imgs i = do is ← put_images C fields imgs; pure (i ∷ is)

  after_puts :
      (fields : List Text) (imgs : List Image) (r : Records) (i : Image)
      (x : Result (List Image) × World)
      → PutMany view fields imgs r x
      → PutMany view fields imgs r (after x (λ is. pure (i ∷ is)))
  after_puts fields imgs r i (ok js, w) h = h
  after_puts fields imgs r i (err e, w) h = h

  after_put :
      (fields : List Text) (img : Image) (imgs : List Image) (r : Records)
      (x : Result Image × World)
      → ((w : World) → PutMany view fields imgs (view w) (put_images C fields imgs w))
      → PutOne view fields img r x
      → PutMany view fields (img ∷ imgs) r (after x (keep_going fields imgs))
  unfolding put_images put_all
  after_put fields img imgs r (err e, w) go h = (0, h)
  after_put fields img imgs r (ok j, w) go h =
      lift_rest _ (after_puts fields imgs (view w) j (put_images C fields imgs w) (go w))
    where
      lift_rest :
          (x : Result (List Image) × World)
          → PutMany view fields imgs (view w) x
          → PutMany view fields (img ∷ imgs) r x
      lift_rest (ok js, w') m = m ∙ ap (put_all fields imgs) h.0
      lift_rest (err e, w') (k, m) = (suc k, m ∙ ap (put_all fields (take k imgs)) h.0)

  -- The loop over the images is a loop over the map: if it ends without an error every image is put
  -- in order, merged into the record of its name, and an error leaves some first images put and no
  -- other change.
  pub put_images-PutMany :
      (fields : List Text) (imgs : List Image) (w : World)
      → PutMany view fields imgs (view w) (put_images C fields imgs w)
  unfolding put_images put_all
  put_images-PutMany fields [] w = refl
  put_images-PutMany fields (img ∷ imgs) w =
      after_put fields img imgs (view w) (put_image C fields img w)
        (λ w'. put_images-PutMany fields imgs w') (put_image-PutOne fields img w)
