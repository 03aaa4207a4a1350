-- ===== src/Tests/Contents.antt =====
-- A content store in memory, and an archive's index.
use mysnapshotter.Prelude.{
  ℕ, ◌≡◌, ◌↔◌, refl, ap, ◌∙◌, Bool, true, false, none, some, List, [], ◌∷◌, Any, any, ◌||◌, ==_refl,
  Text, codes, ◌==◌, text_dec, external, not_found, Result, ok, err,
}
use mysnapshotter.Prelude.Int.{pos}
use mysnapshotter.Extractor.Dispatch.{Metadata, fetch_manifest_and_config}
use mysnapshotter.Extractor.Dispatch.Once.{first, fetch_manifest_and_config-first}
use mysnapshotter.Store.Registry.{Descriptor}
use mysnapshotter.Store.Containerd.{Image}
use mysnapshotter.Store.Content.{Manifest, MediaTypes, Json, ContentStore, read_platform_manifest}
use mysnapshotter.Store.Content.Matching.{IsMatch, read_platform_manifest-Found}
use mysnapshotter.Store.Snapshots.{label_of}
use mysnapshotter.Store.Archives.{Archive, ImportConfig, ImportOpts, no_import_opts}
use mysnapshotter.Store.Importing.{index_images}
use mysnapshotter.Store.Importing.Names.{Stands, Makes, index_images_iff}
use mysnapshotter.Store.Commits.{no_config, content_label, manifest_labels}
use mysnapshotter.Store.Commits.References.{layer_digest, manifest_labels-label_of}
use mysnapshotter.Store.Committing.{Differ, write_contents_for_image}
use mysnapshotter.Store.Committing.Readable.{
  IsReadable, Readable, write_contents_for_image-Readable,
}
use mysnapshotter.Tests.Idle.{idle}
use mysnapshotter.Tests.Runs.{fetcher, no_notes}

program : Unit {0}
unfolding text_dec read_platform_manifest index_images manifest_labels write_contents_for_image
    fetch_manifest_and_config
program = tt

abbrev bare : Text → Descriptor
bare d = record { media_type = codes "m"; digest = d; size = pos 1; annotations = no_notes }

abbrev manifest : Manifest
manifest = record { config = bare (codes "c"); layers = bare (codes "l") ∷ [] }

abbrev json : Json
json = record {
  decode_index = λ b. err (external "no index");
  decode_manifest = λ b. ok manifest;
  decode_config = λ b. ok no_config;
  encode_manifest = λ m. ok (1 ∷ []);
  encode_config = λ c. ok (2 ∷ []);
}

-- The blobs that are there; a blob is its own digest.
abbrev Blobs : Type 0
Blobs = List Text

abbrev blob_if : Bool → Text → Result (List ℕ)
blob_if true d = ok d
blob_if false d = err not_found

abbrev contents : ContentStore Blobs
contents = record {
  read_blob = λ desc w. (blob_if (any (λ b. b == desc.digest) w) desc.digest, w);
  write_blob = λ digest b desc labels w. (ok tt, b ∷ w);
  content_info = λ d w. (ok (pos 1, []), w);
  config_of = λ img w. (ok (bare (codes "c")), w);
  digest_of = λ b. b;
  parse_digest = λ t. ok t;
  same_descriptor = λ a b. a.digest == b.digest;
}

kept_blob : (x y : Bool) (d b : Text) → blob_if y d ≡ ok b → blob_if (x || y) d ≡ ok b
kept_blob true true d b h = h
kept_blob false true d b h = h
kept_blob x false d b h = absurd (cc)

contents-IsReadable : IsReadable contents
contents-IsReadable = record {
  written = λ b desc labels w e h. rw (ap (λ d. b == d) e ∙ ==_refl b) (ap ok e);
  kept = λ digest b desc other labels c w h.
      kept_blob (b == other.digest) (any (λ x. x == other.digest) w) other.digest c h;
}

abbrev differ : Differ (idle Blobs)
differ = record {
  docker_config = codes "config";
  docker_manifest = codes "manifest";
  docker_layer_gzip = codes "layer";
  new_diff = λ key w. (ok (bare (codes "l")), w);
  apply_diff = λ d mounts w. (ok d, w);
}

write_contents_for_image-Readable_example :
    Readable (idle Blobs) contents json differ (some manifest) no_config (bare (codes "n")) (
      write_contents_for_image
        (idle Blobs)
        contents
        json
        differ
        (some manifest)
        no_config
        (bare (codes "n"))
        [])
write_contents_for_image-Readable_example =
    write_contents_for_image-Readable (idle Blobs) contents json differ contents-IsReadable
      (some manifest) no_config (bare (codes "n")) []

abbrev two_layers : List Descriptor
two_layers = bare (codes "l") ∷ bare (codes "n") ∷ []

manifest_labels-label_of_example :
    (label_of (content_label 0) (manifest_labels (codes "c") two_layers) ≡ some (codes "c"))
    × (label_of (content_label 2) (manifest_labels (codes "c") two_layers)
        ≡ layer_digest 1 two_layers)
manifest_labels-label_of_example = manifest_labels-label_of (codes "c") two_layers 1

-- An index with a manifest that is not there, and one with the right configuration.
abbrev index : List Descriptor
index = bare (codes "x") ∷ bare (codes "m") ∷ []

abbrev there : Blobs
there = codes "m" ∷ []

abbrev img : Image
img = record { name = codes "i"; target = bare (codes "i"); labels = [] }

abbrev media : MediaTypes
media = record {
  is_docker = λ t. false;
  is_index = λ t. t == codes "index";
  is_manifest = λ t. t == codes "m";
  is_config = λ t. t == codes "config";
  is_layer = λ t. t == codes "layer";
}

second_is_read :
    read_platform_manifest contents media json img (some (index, bare (codes "i"))) there
    ≡ (ok (some (manifest, bare (codes "m"))), there)
unfolding program
second_is_read = refl

read_platform_manifest-Found_example :
    (config : Descriptor) × ((contents.config_of img there).0 ≡ ok config)
    × Any (IsMatch contents media json config manifest (bare (codes "m"))) index
read_platform_manifest-Found_example =
    read_platform_manifest-Found contents media json img index (bare (codes "i")) there
      second_is_read

-- A manifest was found before.
abbrev found_one : Metadata
found_one = record { mfst = some manifest; conf = none }

fetch_manifest_and_config-first_example :
    ((fetch_manifest_and_config fetcher media json (bare (codes "m")) found_one).1.mfst
      ≡ first found_one.mfst
          (fetch_manifest_and_config fetcher media json (bare (codes "m")) found_one).1.mfst)
    × ((fetch_manifest_and_config fetcher media json (bare (codes "m")) found_one).1.conf
        ≡ first found_one.conf
            (fetch_manifest_and_config fetcher media json (bare (codes "m")) found_one).1.conf)
fetch_manifest_and_config-first_example =
    fetch_manifest_and_config-first fetcher media json (bare (codes "m")) found_one

abbrev archive : Archive Blobs
archive = record {
  Reader = Unit {0};
  open_file = λ f w. (ok tt, w);
  close_file = λ r w. (ok tt, w);
  import_index = λ c r w. (ok (bare (codes "i")), w);
  children = λ d w. (ok [], w);
  Matcher = Unit {0};
  all_platforms = tt;
  store_platform = tt;
  Referrers = Unit {0};
  walk_not_empty = λ m r d h desc w. (ok tt, w);
  skip_desc = external "skip";
  annotation_image_name = codes "name";
  annotation_ref_name = codes "ref";
  annotation_manifest_subject = codes "subject";
}

-- Digests name images too.
abbrev config : ImportConfig (idle Blobs) archive
config = record (ImportOpts.cfg (no_import_opts (idle Blobs) archive)) {
  dgst_ref_t = some (λ d. d);
}

index_images_iff_example :
    Stands
      (idle Blobs)
      archive
      config
      (codes "m")
      (bare (codes "m"))
      (index_images (idle Blobs) archive config index)
    ↔ Any (Makes (idle Blobs) archive config (codes "m") (bare (codes "m"))) index
index_images_iff_example =
    index_images_iff (idle Blobs) archive config (codes "m") (bare (codes "m")) index
