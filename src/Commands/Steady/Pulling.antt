-- ===== src/Commands/Steady/Pulling.antt =====
-- `Pull` keeps an invariant that the libraries keep, and its image has a name of the set.
use mysnapshotter.Prelude.{
  ℕ, zero, suc, Bool, not, any, Option, none, some, List, [], if◌then◌else◌, Text, ◌==◌, Error,
  is_not_found, is_already_exists, Result, ok, err,
}
use mysnapshotter.Extractor.System.{M, pure, fail, ◌>>=◌, attempt}
use mysnapshotter.Extractor.Maintaining.{
  IfOk, Whatever, Maintains, pure-Maintains, fail-Maintains, lift-Maintains, bind-Maintains,
  then-Maintains, named-Maintains, attempt-Maintains, settled-Maintains, if-Maintains,
}
use mysnapshotter.Extractor.Confined.{any_ok}
use mysnapshotter.Store.Registry.{Descriptor}
use mysnapshotter.Store.Containerd.{Containerd, Image}
use mysnapshotter.Store.Options.{apply_options}
use mysnapshotter.Store.Unpacking.{unpack}
use mysnapshotter.Store.Storing.{store_round, store_image}
use mysnapshotter.Store.Pulling.{
  Remote, PullOpts, PullOpt, fetch_contents, fetch_image, error_of, pull,
}
use mysnapshotter.Commands.{Host, World}
use mysnapshotter.Commands.Steady.{IsSteady}
use mysnapshotter.Commands.Steady.Images.{checked-Maintains, leased-Maintains}
use mysnapshotter.Commands.Steady.Unpacking.{unpack-Maintains}

module _ (H : Host) (Names Refs : Text → Type 0) (I : World H → Type 0)
    (S : IsSteady H Names Refs I) where
  abbrev C : Containerd
  C = H.containerd

  abbrev R : Remote (World H)
  R = H.remote

  abbrev update_end : (Image → M (World H) Image) → Image → Result Image → M (World H) Image
  update_end again img u = elim u [
    | ok updated ↦ pure updated
    | err e ↦ if is_not_found e then again img else fail e
  ]

  abbrev create_end : (Image → M (World H) Image) → Image → Result Image → M (World H) Image
  create_end again img r = elim r [
    | ok created ↦ pure created
    | err e ↦
        if is_already_exists e
        then (do u ← attempt (C.image_update img []); update_end again img u)
        else fail e
  ]

  store_round-Maintains :
      (again : Image → M (World H) Image) (img : Image)
      → Names img.name
      → Maintains I Whatever (again img)
      → Maintains I Whatever (store_round C again img)
  unfolding store_round
  store_round-Maintains again img p a =
      settled-Maintains I Whatever (create_end again img) (S.image_create img p)
        (λ i _. pure-Maintains I i tt)
        (λ e.
          if-Maintains I (is_already_exists e)
            (settled-Maintains I Whatever (update_end again img) (S.image_update img [] p)
              (λ i _. pure-Maintains I i tt)
              (λ e'. if-Maintains I (is_not_found e') a (fail-Maintains I e')))
            (fail-Maintains I e))

  store_image-Maintains :
      (rounds : ℕ) (img : Image) → Names img.name → Maintains I Whatever (store_image C rounds img)
  unfolding store_image
  store_image-Maintains zero img p = fail-Maintains I _
  store_image-Maintains (suc rounds) img p =
      store_round-Maintains (λ i. store_image C rounds i) img p (store_image-Maintains rounds img p)

  fetch_contents-Maintains :
      (c : Remote.RemoteContext R) (f : Remote.Fetch R) (d : Descriptor)
      → Maintains I Whatever (fetch_contents C R c f d)
  unfolding fetch_contents
  fetch_contents-Maintains c f d = bind-Maintains I Whatever (S.dispatch c f d) (λ ds _.
      if-Maintains I (any (λ x. x.media_type == R.legacy_config) ds) (S.convert_manifest d)
        (pure-Maintains I d tt))

  fetch_image-Maintains :
      (rounds : ℕ) (ref : Text) (p : PullOpts C R)
      → Refs ref
      → Maintains I Whatever (fetch_image C R rounds ref p)
  unfolding fetch_image
  fetch_image-Maintains rounds ref p h =
      bind-Maintains I Whatever
        (lift-Maintains I (apply_options p.rc_opts R.new_context) (any_ok _))
        (λ c _.
          bind-Maintains I (λ (q : Text × Descriptor). Names q.0)
            (named-Maintains I "resolving image reference into a name and an OCI descriptor"
              (S.resolve (not p.skip_tls) ref h))
            (λ q n.
              bind-Maintains I Whatever
                (named-Maintains I "initiating fetcher for image"
                  (S.new_fetcher (not p.skip_tls) q.0))
                (λ f _.
                  then-Maintains I
                    (if-Maintains I (q.1.media_type == R.schema1_manifest) (fail-Maintains I _)
                      (pure-Maintains I tt tt))
                    (then-Maintains I (S.source_label ref) (
                      bind-Maintains I Whatever (fetch_contents-Maintains c f q.1)
                        (λ target _. store_image-Maintains rounds _ n))))))

  abbrev unpacked : PullOpts C R → Image → M (World H) (Image × Option Error)
  unpacked p img =
      if p.unpack
      then (do r ← attempt (unpack C H.unpacker (some img) p.a_opts); pure (img, error_of C R r))
      else pure (img, none)

  unpacked-Maintains : (p : PullOpts C R) (img : Image) → Maintains I Whatever (unpacked p img)
  unpacked-Maintains p img =
      if-Maintains I p.unpack
        (bind-Maintains I (IfOk Whatever)
          (attempt-Maintains I (unpack-Maintains H Names Refs I S (some img) p.a_opts))
          (λ r _. pure-Maintains I (img, error_of C R r) tt))
        (pure-Maintains I (img, none) tt)

  pub pull-Maintains :
      (initiated : Bool) (rounds : ℕ) (ref : Text) (opts : List (PullOpt C R))
      → Refs ref
      → Maintains I Whatever (pull C R initiated H.unpacker rounds ref opts)
  unfolding pull
  pull-Maintains initiated rounds ref opts h = checked-Maintains H Names Refs I S initiated (
      bind-Maintains I Whatever (lift-Maintains I (apply_options opts _) (any_ok _)) (λ p _.
        leased-Maintains H Names Refs I S initiated (
          bind-Maintains I Whatever {f = unpacked p} (fetch_image-Maintains rounds ref p h)
            (λ img _. unpacked-Maintains p img))))
