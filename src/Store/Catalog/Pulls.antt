-- ===== src/Store/Catalog/Pulls.antt =====
-- `Pull` of pkg/ocistore/pull.go, as an operation on a map.
use mysnapshotter.Prelude.{
  ℕ, zero, suc, Bool, true, false, not, any, Option, none, some, List, ◌≡◌, refl, sym, ap, ◌∙◌,
  if◌then◌else◌, Text, ◌==◌, Error, wrap, external, Result, ok, err,
}
use mathlib.Core.Path.{subst}
use mysnapshotter.Extractor.System.{M, pure, fail, after, ◌>>=◌, lift, named, attempt}
use mysnapshotter.Store.Registry.{Descriptor}
use mysnapshotter.Store.Containerd.{Containerd, Image}
use mysnapshotter.Store.Options.{ApplyCommitOpt, apply_options}
use mysnapshotter.Store.Views.{Keeps, bind-Keeps, named-Keeps, if-Keeps}
use mysnapshotter.Store.Snapshots.{not_initiated}
use mysnapshotter.Store.Unpacking.{Unpacker, unpack}
use mysnapshotter.Store.Storing.{store_image}
use mysnapshotter.Store.Pulling.{
  Remote, PullOpts, PullOpt, fetch_contents, fetch_image, error_of, pull,
}
use mysnapshotter.Store.Catalog.{Records, set, Catalog}
use mysnapshotter.Store.Catalog.Unpacks.{IsUnpacking, unpack-Keeps}
use mysnapshotter.Store.Catalog.Leased.{leased-Did}
use mysnapshotter.Store.Catalog.Rounds.{Stored, store_image-Stored}

-- The registry and the unpacker leave the image records alone.
pub record IsApart (C : Containerd) (L : Catalog C) (R : Remote C.World) (U : Unpacker C)
    : Type 0 where
  pub resolve-Keeps : (tls : Bool) (ref : Text) → Keeps (Catalog.view L) (R.resolve tls ref)
  pub new_fetcher-Keeps : (tls : Bool) (n : Text) → Keeps (Catalog.view L) (R.new_fetcher tls n)
  pub source_label-Keeps : (ref : Text) → Keeps (Catalog.view L) (R.source_label_handler ref)
  pub dispatch-Keeps :
      (c : R.RemoteContext) (f : R.Fetch) (d : Descriptor)
      → Keeps (Catalog.view L) (R.dispatch c f d)
  pub convert-Keeps : (d : Descriptor) → Keeps (Catalog.view L) (R.convert_manifest d)
  pub unpacks : IsUnpacking C L U

module _ (C : Containerd) (initiated : Bool) (L : Catalog C) (R : Remote C.World)
    (U : Unpacker C) where
  open C use {World}
  open L use {view}

  -- A result whose image is set, or an error and no change.
  abbrev pub Sets : {B : Type 0} → (B → Image) → Records → Result B × World → Type 0
  Sets f r (ok b, w) = view w ≡ set (f b) r
  Sets f r (err e, w) = view w ≡ r

  bind-Sets :
      {A B : Type 0} (f : B → Image) (r : Records) (x : Result A × World) (k : A → M World B)
      → view x.1 ≡ r
      → ((a : A) (w : World) → Sets f (view w) (k a w))
      → Sets f r (after x k)
  bind-Sets f r (ok a, w) k e h = subst (λ s. Sets f s (k a w)) e (h a w)
  bind-Sets f r (err x, w) k e h = e

  pass-Sets :
      {A B : Type 0} (f : A → Image) (g : B → Image) (r : Records) (x : Result A × World)
      (k : A → M World B)
      → Sets f r x
      → ((a : A) (w : World) → view w ≡ set (f a) r → Sets g r (k a w))
      → Sets g r (after x k)
  pass-Sets f g r (ok a, w) k s h = h a w s
  pass-Sets f g r (err x, w) k s h = s

  module _ (H : IsApart C L R U) where
    fetch_contents-Keeps :
        (c : R.RemoteContext) (f : R.Fetch) (d : Descriptor) → Keeps view (fetch_contents C R c f d)
    unfolding fetch_contents
    fetch_contents-Keeps c f d =
        bind-Keeps view (R.dispatch c f d) _ (H.dispatch-Keeps c f d) (λ ds.
          if-Keeps view (any (λ x. x.media_type == R.legacy_config) ds) (R.convert_manifest d)
            (pure d) (H.convert-Keeps d) (λ w. refl))

    store_image-Sets :
        (rounds : ℕ) (img : Image) (w : World) → Sets (λ i. i) (view w) (store_image C rounds img w)
    unfolding store_image
    store_image-Sets zero img w = refl
    store_image-Sets (suc rounds) img w =
        stored (store_image C (suc rounds) img w) (store_image-Stored C L rounds img w)
      where
        stored : (x : Result Image × World) → Stored C L img (view w) x → Sets (λ i. i) (view w) x
        stored (ok j, w') h = h.1 ∙ ap (λ i. set i (view w)) (sym h.0)
        stored (err e, w') h = h

    schema_check :
        (old : Bool) (e : Error) → Keeps view (if old then fail {A = Unit {0}} e else pure tt)
    schema_check old e = if-Keeps view old (fail e) (pure tt) (λ w. refl) (λ w. refl)

    fetch_image-Sets :
        (rounds : ℕ) (ref : Text) (p : PullOpts C R) (w : World)
        → Sets (λ i. i) (view w) (fetch_image C R rounds ref p w)
    unfolding fetch_image
    fetch_image-Sets rounds ref p w =
        let tls = not p.skip_tls in
        let resolving =
          named "resolving image reference into a name and an OCI descriptor" (R.resolve tls ref) in
        bind-Sets _ _ (apply_options p.rc_opts R.new_context, w) _ refl
          (λ c w0.
            bind-Sets _ _ (resolving w0) _
              (named-Keeps view "resolving image reference into a name and an OCI descriptor"
                (R.resolve tls ref) (H.resolve-Keeps tls ref) w0)
              (λ q w1.
                bind-Sets _ _ (named "initiating fetcher for image" (R.new_fetcher tls q.0) w1) _
                  (named-Keeps view "initiating fetcher for image" (R.new_fetcher tls q.0)
                    (H.new_fetcher-Keeps tls q.0) w1)
                  (λ f w2.
                    bind-Sets _ _
                      ((if q.1.media_type == R.schema1_manifest
                          then fail (
                              wrap "media type is no longer supported" (external "not implemented"))
                          else pure tt)
                        w2)
                      _
                      (schema_check (q.1.media_type == R.schema1_manifest)
                        (wrap "media type is no longer supported" (external "not implemented")) w2)
                      (λ _ w3.
                        bind-Sets _ _ (R.source_label_handler ref w3) _
                          (H.source_label-Keeps ref w3)
                          (λ _ w4.
                            bind-Sets _ _ (fetch_contents C R c f q.1 w4) _
                              (fetch_contents-Keeps c f q.1 w4)
                              (λ t w5. store_image-Sets rounds _ w5))))))

    abbrev pulled : Bool → List (ApplyCommitOpt C) → Image → M World (Image × Option Error)
    pulled b opts img =
        if b
        then (do r ← attempt (unpack C U (some img) opts); pure (img, error_of C R r))
        else pure (img, none)

    pulled-Sets :
        (b : Bool) (opts : List (ApplyCommitOpt C)) (img : Image) (r : Records) (w : World)
        → view w ≡ set img r
        → Sets (λ q. q.0) r (pulled b opts img w)
    pulled-Sets true opts img r w h = unpack-Keeps C L U H.unpacks img opts w ∙ h
    pulled-Sets false opts img r w h = h

    abbrev pull_body : ℕ → Text → PullOpts C R → M World (Image × Option Error)
    pull_body rounds ref p = do img ← fetch_image C R rounds ref p; pulled p.unpack p.a_opts img

    pull_body-Sets :
        (rounds : ℕ) (ref : Text) (p : PullOpts C R) (w : World)
        → Sets (λ q. q.0) (view w) (pull_body rounds ref p w)
    pull_body-Sets rounds ref p w =
        pass-Sets (λ i. i) (λ q. q.0) (view w) (fetch_image C R rounds ref p w)
          (pulled p.unpack p.a_opts) (fetch_image-Sets rounds ref p w)
          (λ img w1 e. pulled-Sets p.unpack p.a_opts img (view w) w1 e)

  -- The image of a result is set, or there is an error and no change.
  abbrev pub SetTo : {B : Type 0} → (B → Image) → Records → Result B → Records → Type 0
  SetTo f r (ok b) s = s ≡ set (f b) r
  SetTo f r (err e) s = s ≡ r

  Sets-SetTo :
      {B : Type 0} (f : B → Image) (r : Records) (x : Result B × World)
      → Sets f r x
      → SetTo f r x.0 (view x.1)
  Sets-SetTo f r (ok b, w) h = h
  Sets-SetTo f r (err e, w) h = h

  SetTo-Sets :
      {B : Type 0} (f : B → Image) (r : Records) (x : Result B × World)
      → SetTo f r x.0 (view x.1)
      → Sets f r x
  SetTo-Sets f r (ok b, w) h = h
  SetTo-Sets f r (err e, w) h = h

  checked-Sets :
      {B : Type 0} (f : B → Image) (b : Bool) (m : M World B) (w : World)
      → Sets f (view w) (m w)
      → Sets f (view w) ((if b then m else fail not_initiated) w)
  checked-Sets f true m w h = h
  checked-Sets f false m w h = refl

  -- A pull that returns an image, unpacked or not, leaves it under its name in the image store, whole,
  -- and all other records as they were; any other pull returns an error and changes no record, if the
  -- registry and the unpacker leave the records alone.
  pub pull-Sets :
      IsApart C L R U
      → (rounds : ℕ) (ref : Text) (opts : List (PullOpt C R)) (w : World)
      → Sets (λ q. q.0) (view w) (pull C R initiated U rounds ref opts w)
  unfolding pull
  pull-Sets H rounds ref opts w =
      checked-Sets (λ q. q.0) initiated _ w
        (bind-Sets (λ q. q.0) (view w) (lift (apply_options opts _) w) _ refl
          (λ p w1.
            SetTo-Sets (λ q. q.0) (view w1) _
              (leased-Did C initiated L (SetTo (λ q. q.0)) (λ r e. refl) (pull_body H rounds ref p)
                w1
                (λ w2.
                  Sets-SetTo (λ q. q.0) (view w2) (pull_body H rounds ref p w2)
                    (pull_body-Sets H rounds ref p w2)))))
