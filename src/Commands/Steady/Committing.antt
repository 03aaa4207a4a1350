-- ===== src/Commands/Steady/Committing.antt =====
-- `Commit` keeps an invariant that the libraries keep.
use mysnapshotter.Prelude.{
  Bool, Option, none, some, List, [], if◌then◌else◌, Text, codes, message, is_not_found,
  is_already_exists, Result, ok, err,
}
use mysnapshotter.Prelude.Int.{ℤ}
use mysnapshotter.Extractor.System.{M, pure, fail, ◌>>=◌, ◌>>◌, lift, named}
use mysnapshotter.Extractor.Maintaining.{
  IfOk, Whatever, Maintains, pure-Maintains, fail-Maintains, lift-Maintains, bind-Maintains,
  then-Maintains, named-Maintains, settled-Maintains, if-Maintains,
}
use mysnapshotter.Extractor.Confined.{any_ok}
use mysnapshotter.Store.Registry.{Descriptor}
use mysnapshotter.Store.Containerd.{Containerd, Image, label_snapshot_img_ref}
use mysnapshotter.Store.Content.{Manifest, ImageConfig, ContentStore}
use mysnapshotter.Store.Snapshots.{label_of}
use mysnapshotter.Store.Unpacking.{unpack}
use mysnapshotter.Store.Options.{apply_options}
use mysnapshotter.Store.Commits.{
  ImgOpts, CommitImgOpt, no_commit_opts, generate_commit_image_config,
}
use mysnapshotter.Store.Committing.{
  bare_descriptor, create_diff, write_contents_for_image, apply_diff_layer, read_base, time_now,
  store_commit, commit_leased, commit,
}
use mysnapshotter.Commands.{Host, World}
use mysnapshotter.Commands.Steady.{IsSteady}
use mysnapshotter.Commands.Steady.Images.{checked-Maintains, leased_strictly-Maintains}
use mysnapshotter.Commands.Steady.Reading.{read_image_config-Maintains, read_manifest-Maintains}
use mysnapshotter.Commands.Steady.Unpacking.{unpack-Maintains}

module _ (H : Host) (Names Refs : Text → Type 0) (I : World H → Type 0)
    (S : IsSteady H Names Refs I) where
  abbrev C : Containerd
  C = H.containerd

  abbrev B : ContentStore (World H)
  B = H.contents

  create_diff-Maintains : (key : Text) → Maintains I Whatever (create_diff C B H.json H.differ key)
  unfolding create_diff
  create_diff-Maintains key = bind-Maintains I Whatever (S.new_diff key) (λ d _.
      bind-Maintains I Whatever (S.content_info d.digest)
        (λ q _. given d q.0 (label_of (codes "containerd.io/uncompressed") q.1)))
    where
      given :
          (d : Descriptor) (size : ℤ) (o : Option Text)
          → Maintains I Whatever (elim o as (λ _. M (World H) (Descriptor × Text)) [
            | none ↦ fail (message "invalid differ response with no diffID")
            | some id ↦ do
              diff_id ← lift (B.parse_digest id)
              pure (bare_descriptor H.differ.docker_layer_gzip d.digest size, diff_id)
          ])
      given d size none = fail-Maintains I _
      given d size (some id) =
          bind-Maintains I Whatever (lift-Maintains I (B.parse_digest id) (any_ok _))
            (λ i _. pure-Maintains I _ tt)

  write_contents_for_image-Maintains :
      (m : Option Manifest) (config : ImageConfig) (layer : Descriptor)
      → Maintains I Whatever (write_contents_for_image C B H.json H.differ m config layer)
  unfolding write_contents_for_image
  write_contents_for_image-Maintains m config layer =
      bind-Maintains I Whatever (lift-Maintains I (H.json.encode_config config) (any_ok _)) (λ cj _.
        bind-Maintains I Whatever (lift-Maintains I (H.json.encode_manifest _) (any_ok _)) (λ mj _.
          then-Maintains I (S.write_blob _ mj _ _)
            (then-Maintains I (S.write_blob _ cj _ _) (pure-Maintains I _ tt))))

  abbrev applied : Result (Unit {0}) → M (World H) (Unit {0})
  applied r = elim r [ ok _ ↦ pure tt | err e ↦ if is_already_exists e then pure tt else fail e ]

  apply_diff_layer-Maintains :
      (name key : Text) (layer : Descriptor)
      → Maintains I Whatever (apply_diff_layer C B H.json H.differ name key layer)
  unfolding apply_diff_layer
  apply_diff_layer-Maintains name key layer =
      bind-Maintains I Whatever (S.snapshot_mounts key) (λ mounts _.
        then-Maintains I (S.apply_diff layer mounts) (
          settled-Maintains I Whatever applied (S.snapshot_commit name key _)
            (λ _ _. pure-Maintains I tt tt)
            (λ e.
              if-Maintains I (is_already_exists e) (pure-Maintains I tt tt) (fail-Maintains I e))))

  module _ (initiated : Bool) where
    read_base-Maintains :
        (o : Option Text)
        → Maintains I Whatever (
            read_base C B H.json H.differ initiated H.media_types H.clock H.unpacker H.goarch H.goos
              o)
    unfolding read_base
    read_base-Maintains none = pure-Maintains I _ tt
    read_base-Maintains (some ref) = bind-Maintains I Whatever (S.image_get ref) (λ img _.
        bind-Maintains I Whatever (read_image_config-Maintains H Names Refs I S img) (λ q _.
          bind-Maintains I Whatever (read_manifest-Maintains H Names Refs I S img)
            (λ m _. pure-Maintains I _ tt)))

    abbrev stored : Image → Result Image → M (World H) (Unit {0})
    stored img r = elim r [
      | ok _ ↦ pure tt
      | err e ↦
          if is_not_found e
          then (do named "failed to create new image" (C.image_create img); pure tt)
          else fail e
    ]

    store_commit-Maintains :
        (img : Image)
        → Names img.name
        → Maintains I Whatever (
            store_commit C B H.json H.differ initiated H.media_types H.clock H.unpacker H.goarch
              H.goos img)
    unfolding store_commit
    store_commit-Maintains img p =
        settled-Maintains I Whatever (stored img) (S.image_update img [] p)
          (λ _ _. pure-Maintains I tt tt)
          (λ e.
            if-Maintains I (is_not_found e)
              (then-Maintains I (named-Maintains I _ (S.image_create img p))
                (pure-Maintains I tt tt))
              (fail-Maintains I e))

    now-Maintains : Maintains I Whatever (λ w. let (t, w') = H.clock.now w in (ok t, w'))
    now-Maintains = record { run = λ w i. (S.now w i, tt) }

    -- The record of the new image, and what follows the reading of the clock.
    abbrev image_of : ImgOpts → Descriptor → Image
    image_of o target = record { name = o.ref; target = target; labels = o.labels }

    abbrev made : ImgOpts → Descriptor × Text → M (World H) Image
    made o q = do
      store_commit C B H.json H.differ initiated H.media_types H.clock H.unpacker H.goarch H.goos
          (image_of o q.0)
      unpack C H.unpacker (some (image_of o q.0)) []
      pure (image_of o q.0)

    made-Maintains :
        (o : ImgOpts) (q : Descriptor × Text) → Names o.ref → Maintains I Whatever (made o q)
    made-Maintains o q p = then-Maintains I (store_commit-Maintains (image_of o q.0) p) (
        then-Maintains I (unpack-Maintains H Names Refs I S (some (image_of o q.0)) [])
          (pure-Maintains I (image_of o q.0) tt))

    abbrev written :
        Text → ImgOpts → ImageConfig × Option Manifest → Descriptor × Text → ℤ → M (World H) Image
    written key o base l now = do
      let config = generate_commit_image_config H.goarch H.goos now base.0 l.1 o
      named "failed to apply diff"
          (apply_diff_layer C B H.json H.differ (C.chain_id config.diff_ids) key l.0)
      q ← write_contents_for_image C B H.json H.differ base.1 config l.0
      made o q

    written-Maintains :
        (key : Text) (o : ImgOpts) (base : ImageConfig × Option Manifest) (l : Descriptor × Text)
        (now : ℤ)
        → Names o.ref
        → Maintains I Whatever (written key o base l now)
    written-Maintains key o base l now p =
        let config = generate_commit_image_config H.goarch H.goos now base.0 l.1 o in
        then-Maintains I
          (named-Maintains I _ (apply_diff_layer-Maintains (C.chain_id config.diff_ids) key l.0))
          (bind-Maintains I Whatever {f = made o}
            (write_contents_for_image-Maintains base.1 config l.0) (λ q _. made-Maintains o q p))

    abbrev exported : Text → ImgOpts → ImageConfig × Option Manifest → M (World H) Image
    exported key o base = do
      l ← named "failed to export layer" (create_diff C B H.json H.differ key)
      now ← time_now C B H.json H.differ initiated H.media_types H.clock H.unpacker H.goarch H.goos
      written key o base l now

    exported-Maintains :
        (key : Text) (o : ImgOpts) (base : ImageConfig × Option Manifest)
        → Names o.ref
        → Maintains I Whatever (exported key o base)
    exported-Maintains key o base p =
        bind-Maintains I Whatever
          (named-Maintains I "failed to export layer" (create_diff-Maintains key))
          (λ l _.
            bind-Maintains I Whatever {f = written key o base l} now-Maintains
              (λ now _. written-Maintains key o base l now p))

    commit_leased-Maintains :
        (key : Text) (o : ImgOpts)
        → Names o.ref
        → Maintains I Whatever (
            commit_leased C B H.json H.differ initiated H.media_types H.clock H.unpacker H.goarch
              H.goos key o)
    unfolding commit_leased
    commit_leased-Maintains key o p = bind-Maintains I Whatever (S.snapshot_stat key) (λ info _.
        bind-Maintains I Whatever {f = exported key o}
          (read_base-Maintains (label_of label_snapshot_img_ref info.labels))
          (λ base _. exported-Maintains key o base p))

    pub commit-Maintains :
        (key : Text) (opts : List (CommitImgOpt C))
        → IfOk (λ o. Names o.i_opts.ref) (apply_options opts (no_commit_opts C))
        → Maintains I Whatever (
            commit C B H.json H.differ initiated H.media_types H.clock H.unpacker H.goarch H.goos
              key opts)
    unfolding commit
    commit-Maintains key opts p = checked-Maintains H Names Refs I S initiated (
        bind-Maintains I (λ o. Names o.i_opts.ref)
          (lift-Maintains I (apply_options opts (no_commit_opts C)) p)
          (λ o n.
            leased_strictly-Maintains H Names Refs I S initiated _
              (commit_leased-Maintains key o.i_opts n)))
