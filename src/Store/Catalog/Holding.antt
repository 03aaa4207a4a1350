-- ===== src/Store/Catalog/Holding.antt =====
-- Images that are set in the image store one after the other.
use mysnapshotter.Prelude.{List, [], ◌∷◌, ◌≡◌, refl, sym, ap, ◌∙◌, Text, Result, ok, err}
use mathlib.Core.Path.{subst}
use mysnapshotter.Extractor.System.{M, pure, after, ◌>>=◌}
use mysnapshotter.Store.Containerd.{Containerd, Image}
use mysnapshotter.Store.Storing.{put_image, put_images}
use mysnapshotter.Store.Catalog.{Records, set, Catalog}
use mysnapshotter.Store.Catalog.Puts.{PutOne, put_image-PutOne}

unfoldable pub set_all : List Image → Records → Records
set_all [] r = r
set_all (img ∷ imgs) r = set_all imgs (set img r)

module _ (C : Containerd) (L : Catalog C) where
  open C use {World}
  open L use {view}

  -- The images of the result are set in order, and nothing else; an error leaves some images set.
  abbrev pub Holds : {B : Type 0} → (B → List Image) → Records → Result B × World → Type 0
  Holds f r (ok b, w) = view w ≡ set_all (f b) r
  Holds f r (err e, w) = (js : List Image) × (view w ≡ set_all js r)

  pub bind-Holds :
      {A B : Type 0} (f : B → List Image) (r : Records) (x : Result A × World) (k : A → M World B)
      → view x.1 ≡ r
      → ((a : A) (w : World) → Holds f (view w) (k a w))
      → Holds f r (after x k)
  unfolding set_all
  bind-Holds f r (ok a, w) k e h = subst (λ s. Holds f s (k a w)) e (h a w)
  bind-Holds f r (err x, w) k e h = ([], e)

  pub pass-Holds :
      {A B : Type 0} (f : A → List Image) (g : B → List Image) (r : Records) (x : Result A × World)
      (k : A → M World B)
      → Holds f r x
      → ((a : A) (w : World) → view w ≡ set_all (f a) r → Holds g r (k a w))
      → Holds g r (after x k)
  pass-Holds f g r (ok a, w) k s h = h a w s
  pass-Holds f g r (err x, w) k s h = s

  abbrev same : List Image → List Image
  same js = js

  rest-Holds :
      (r : Records) (j : Image) (w : World) (x : Result (List Image) × World)
      → view w ≡ set j r
      → Holds same (view w) x
      → Holds same r (after x (λ is. pure (j ∷ is)))
  unfolding set_all
  rest-Holds r j w (ok js, w') e h = h ∙ ap (set_all js) e
  rest-Holds r j w (err x, w') e (js, h) = (j ∷ js, h ∙ ap (set_all js) e)

  put-Holds :
      (fields : List Text) (img : Image) (imgs : List Image) (r : Records)
      (x : Result Image × World)
      → ((w : World) → Holds same (view w) (put_images C fields imgs w))
      → PutOne view fields img r x
      → Holds same r (after x (λ i. put_images C fields imgs >>= λ is. pure (i ∷ is)))
  unfolding set_all
  put-Holds fields img imgs r (ok j, w) go h =
      rest-Holds r j w (put_images C fields imgs w) (h.0 ∙ ap (λ i. set i r) (sym h.1)) (go w)
  put-Holds fields img imgs r (err e, w) go h = ([], h)

  pub put_images-Holds :
      (fields : List Text) (imgs : List Image) (w : World)
      → Holds same (view w) (put_images C fields imgs w)
  unfolding put_images set_all
  put_images-Holds fields [] w = refl
  put_images-Holds fields (img ∷ imgs) w =
      put-Holds fields img imgs (view w) (put_image C fields img w)
        (λ w'. put_images-Holds fields imgs w') (put_image-PutOne C L fields img w)
