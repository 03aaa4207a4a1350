-- ===== src/Store/Storing.antt =====
-- How pull.go and import.go of pkg/ocistore store the records of images and delete them.
use mysnapshotter.Prelude.{
  ℕ, zero, suc, Bool, true, false, message, List, [], ◌∷◌, if◌then◌else◌, Text, external,
  is_not_found, is_already_exists, ok, err,
}
use mysnapshotter.Extractor.System.{M, pure, fail, ◌>>=◌, ◌>>◌, attempt}
use mysnapshotter.Store.Containerd.{Containerd, Image}
use mysnapshotter.Store.Images.{delete_leased}

module _ (C : Containerd) where
  open C use {World}

  -- One round of the loop that stores the image record, before what `again` does.
  unfoldable pub store_round : (Image → M World Image) → Image → M World Image
  store_round again img = do
    r ← attempt (C.image_create img)
    (elim r [
      | ok created ↦ pure created
      | err e ↦
          if is_already_exists e
          then (do
            u ← attempt (C.image_update img [])
            (elim u [
              | ok updated ↦ pure updated
              | err e' ↦ if is_not_found e' then again img else fail e'
            ]))
          else fail e
    ])

  -- The loop, with the number of rounds that are left.
  unfoldable pub store_image : ℕ → Image → M World Image
  unfolding store_round
  store_image zero img = fail (external "no rounds left")
  store_image (suc rounds) img = store_round (λ i. store_image rounds i) img

  -- The record of an image is updated, or created if there is none.
  unfoldable pub put_image : List Text → Image → M World Image
  put_image fields img = do
    r ← attempt (C.image_update img fields)
    (elim r [ ok i ↦ pure i | err e ↦ if is_not_found e then C.image_create img else fail e ])

  unfoldable pub put_images : List Text → List Image → M World (List Image)
  unfolding put_image
  put_images fields [] = pure []
  put_images fields (img ∷ imgs) = do
    i ← put_image fields img
    is ← put_images fields imgs
    pure (i ∷ is)

module _ (C : Containerd) (initiated : Bool) where
  open C use {World}

  -- The images are deleted; tells if one could not be.
  unfoldable pub delete_all : ℕ → List Image → M World Bool
  unfolding delete_leased
  delete_all rounds [] = pure false
  delete_all rounds (img ∷ imgs) = do
    r ← attempt (delete_leased C initiated rounds img.name)
    failed ← delete_all rounds imgs
    pure (elim r [ ok _ ↦ failed | err _ ↦ true ])

  -- Only the first of the images is kept.
  unfoldable pub keep_first : ℕ → List Image → M World Image
  unfolding delete_all
  keep_first rounds [] = fail (message "something went wrong, no images imported")
  keep_first rounds (img ∷ others) = do
    failed ← delete_all rounds others
    if failed
        then (do delete_all rounds (img ∷ []); fail (message "failed removing imported images"))
        else pure img
