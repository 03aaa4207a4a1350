-- ===== src/Store/Pulling.antt =====
-- pkg/ocistore/pull.go. The registry's resolver and the handlers of containerd are parameters.
use mysnapshotter.Prelude.{
  ℕ, Bool, true, false, not, Option, none, some, List, [], ◌++◌, any, if◌then◌else◌, Text, ◌==◌,
  Error, wrap, external, Result, ok, err,
}
use mysnapshotter.Extractor.System.{M, pure, fail, ◌>>=◌, ◌>>◌, lift, named, attempt}
use mysnapshotter.Store.Registry.{Descriptor}
use mysnapshotter.Store.Containerd.{Labels, Containerd, Image}
use mysnapshotter.Store.Options.{ApplyCommitOpt, apply_options}
use mysnapshotter.Store.Snapshots.{checked, leased}
use mysnapshotter.Store.Storing.{store_image}
use mysnapshotter.Store.Unpacking.{Unpacker, unpack}

-- The resolver, for which TLS is verified or not, `docker.AppendDistributionSourceLabel`,
-- `images.Dispatch` with the handlers of the remote context, which tells the descriptors that it has
-- handled, and `docker.ConvertManifest`, with the media types that the code tests.
pub record Remote (World : Type 0) : Type 1 where
  pub RemoteContext : Type 0
  pub new_context : RemoteContext
  pub context_labels : RemoteContext → Labels
  pub Fetch : Type 0
  pub resolve : Bool → Text → World → Result (Text × Descriptor) × World
  pub new_fetcher : Bool → Text → World → Result Fetch × World
  pub source_label_handler : Text → World → Result (Unit {0}) × World
  pub dispatch : RemoteContext → Fetch → Descriptor → World → Result (List Descriptor) × World
  pub convert_manifest : Descriptor → World → Result Descriptor × World
  pub schema1_manifest : Text
  pub legacy_config : Text

module _ (C : Containerd) (R : Remote C.World) where
  open C use {World}
  open R use {RemoteContext}

  abbrev pub RemoteContextOpt : Type 0
  RemoteContextOpt = RemoteContext → Result RemoteContext

  -- `PullOpts`, with the functions that set it.
  pub record PullOpts : Type 0 where
    pub a_opts : List (ApplyCommitOpt C)
    pub rc_opts : List RemoteContextOpt
    pub unpack : Bool
    pub skip_tls : Bool

  abbrev pub PullOpt : Type 0
  PullOpt = PullOpts → Result PullOpts

  abbrev pub with_remote_context_opts : List RemoteContextOpt → PullOpt
  with_remote_context_opts opts p = ok (record p { rc_opts = p.rc_opts ++ opts })

  abbrev pub with_pull_unpack : PullOpt
  with_pull_unpack p = ok (record p { unpack = true })

  abbrev pub with_skip_tls : PullOpt
  with_skip_tls p = ok (record p { skip_tls = true })

  abbrev pub with_pull_apply_commit_opts : List (ApplyCommitOpt C) → PullOpt
  with_pull_apply_commit_opts opts p = ok (record p { a_opts = p.a_opts ++ opts })

  -- The descriptors of the image are fetched, and its manifest converted if one is of an old kind.
  unfoldable pub fetch_contents : RemoteContext → R.Fetch → Descriptor → M World Descriptor
  fetch_contents context fetcher desc = do
    handled ← R.dispatch context fetcher desc
    if any (λ d. d.media_type == R.legacy_config) handled
        then R.convert_manifest desc
        else pure desc

  -- `fetch`.
  unfoldable pub fetch_image : ℕ → Text → PullOpts → M World Image
  unfolding apply_options fetch_contents store_image
  fetch_image rounds ref p = do
    context ← lift (apply_options p.rc_opts R.new_context)
    (name, desc) ←
        named "resolving image reference into a name and an OCI descriptor"
          (R.resolve (not p.skip_tls) ref)
    fetcher ← named "initiating fetcher for image" (R.new_fetcher (not p.skip_tls) name)
    (if desc.media_type == R.schema1_manifest
        then fail (wrap "media type is no longer supported" (external "not implemented"))
        else pure tt)
    R.source_label_handler ref
    target ← fetch_contents context fetcher desc
    store_image C rounds
        (record { name = name; target = target; labels = R.context_labels context })

  -- The error of an action, if it has one.
  abbrev pub error_of : Result (Unit {0}) → Option Error
  error_of (ok _) = none
  error_of (err e) = some e

  -- `Pull`: an image that is not unpacked is returned with the error.
  unfoldable pub pull : Bool → Unpacker C → ℕ → Text → List PullOpt → M World (Image × Option Error)
  unfolding leased fetch_image unpack
  pull initiated U rounds ref opts = checked C initiated (do
    p ← lift (
        apply_options opts (record { a_opts = []; rc_opts = []; unpack = false; skip_tls = false }))
    leased C initiated (do
      img ← fetch_image rounds ref p
      (if p.unpack
          then (do r ← attempt (unpack C U (some img) p.a_opts); pure (img, error_of r))
          else pure (img, none))))
