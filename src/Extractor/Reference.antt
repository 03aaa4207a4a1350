-- ===== src/Extractor/Reference.antt =====
-- `ExtractImage` of pkg/extractor/extractor.go, from the image's reference on. The registry's resolver
-- and containerd's dispatch of a handler are parameters, and so is the error of opening the database.
pub mod Untracked
use mysnapshotter.Prelude.{
  Bool, Option, none, some, List, if◌then◌else◌, is_some, Text, Error, message, wrap, Result, ok,
  err,
}
use mysnapshotter.Paths.{abs}
use mysnapshotter.Extractor.System.{Syscall, M, pure, fail, ◌>>=◌, ◌>>◌, lift, named, issue}
use mysnapshotter.Store.Registry.{Descriptor, Fetcher}
use mysnapshotter.Store.Content.{Manifest, MediaTypes, Json}
use mysnapshotter.Extractor.Dispatch.{Metadata, no_metadata, fetch_manifest_and_config}
use mysnapshotter.Extractor.Image.{Env, World, Db, extract_image}

-- The resolver of `SetupOCIRegistryResolver`, for which TLS is verified or not, and
-- `images.Dispatch` with `images.FilterPlatforms` over a handler.
pub record Resolver : Type 0 where
  pub resolve : Bool → Text → Result (Text × Descriptor)
  pub new_fetcher : Bool → Text → Result Fetcher
  pub dispatch : (Descriptor → M Metadata (List Descriptor)) → Descriptor → M Metadata (Unit {0})

-- The manifest, if there is a configuration too.
abbrev pub manifest_found : Option Manifest → Bool → Result Manifest
manifest_found none _ = err (message "failed to find manifest and image config")
manifest_found (some m) has_config =
    if has_config then ok m else err (message "failed to find manifest and image config")

module _ (E : Env) (R : Resolver) (T : MediaTypes) (J : Json) where
  abbrev pub dispatched : Result (Unit {0}) × Metadata → Result Manifest
  dispatched (ok _, s) = manifest_found s.mfst (is_some s.conf)
  dispatched (err e, s) = err (wrap "failed on image dispatch" e)

  -- The manifest of an image.
  unfoldable pub find_image_manifest : Fetcher → Descriptor → Result Manifest
  unfolding fetch_manifest_and_config
  find_image_manifest F desc =
      dispatched (R.dispatch (fetch_manifest_and_config F T J) desc no_metadata)

  -- What comes before the layers: the destination, the fetcher and the manifest.
  unfoldable pub prepare_image :
      Bool → Option Error → Bool → Text → Text → M (World E) (Text × Fetcher × Manifest)
  unfolding find_image_manifest abs
  prepare_image delta opened verify ref destination = do
    root ← named "cannot set destination as an absolute path" (lift (abs E.cwd destination))
    named "creating destination directory" (issue E.os (Syscall.mkdir_all root 493))
    (name, desc) ← lift (R.resolve verify ref)
    F ← named "initiating fetcher for image" (lift (R.new_fetcher verify name))
    m ← lift (find_image_manifest F desc)
    (if delta
        then (elim opened [ none ↦ pure tt | some e ↦ fail (wrap "opening file database" e) ])
        else pure tt)
    pure (root, F, m)

  abbrev pub with_digest :
      Text → (Db E × Result (Unit {0})) × World E → (Db E × Result Text) × World E
  with_digest digest ((db, ok _), w) = ((db, ok digest), w)
  with_digest digest ((db, err e), w) = ((db, err e), w)

  abbrev pub extract_prepared :
      Bool → Db E → Result (Text × Fetcher × Manifest) × World E → (Db E × Result Text) × World E
  extract_prepared delta db (err e, w) = ((db, err e), w)
  extract_prepared delta db (ok (root, F, m), w) =
      with_digest m.config.digest
        (extract_image (record E { fetcher = F }) delta root m.layers db w)

  -- `ExtractImage`: the digest of the configuration, or an error.
  unfoldable pub extract_reference :
      Bool → Option Error → Bool → Text → Text → Db E → World E → (Db E × Result Text) × World E
  unfolding prepare_image extract_image
  extract_reference delta opened verify ref destination db w =
      extract_prepared delta db (prepare_image delta opened verify ref destination w)
