-- ===== src/Tests/References.antt =====
-- The extraction of an image from its reference, of which a layer fails.
use mysnapshotter.Prelude.{
  true, false, none, [], ◌∷◌, ◌≡◌, refl, codes, text_dec, ◌==◌, wrap, external, ok, err,
}
use mysnapshotter.Paths.{abs}
use mysnapshotter.Prelude.Int64.{add64, sub64}
use mysnapshotter.FileDb.{root_exists, update}
use mysnapshotter.FileDb.Memory.{memory, memory-IsLawful, no_buckets}
use mysnapshotter.Store.Registry.{Descriptor, fetch_toc, get_toc_location}
use mysnapshotter.Store.Content.{Manifest, MediaTypes, Json}
use mysnapshotter.Store.Commits.{no_config}
use mysnapshotter.Extractor.System.{pure, ◌>>◌}
use mysnapshotter.Extractor.Reference.{Resolver, extract_reference}
use mysnapshotter.Extractor.Reference.Untracked.{extract_reference-untracked}
use mysnapshotter.Extractor.Ranges.{group_missing_files}
use mysnapshotter.Tests.Sorts.{insertion_sort}
use mysnapshotter.Tests.Runs.{env, fetcher, good, bad}

program : Unit {0}
unfolding extract_reference fetch_toc get_toc_location text_dec update add64 sub64 abs
    insertion_sort group_missing_files
program = tt

abbrev config : Descriptor
config = record good { media_type = codes "config" }

abbrev manifest : Manifest
manifest = record { config = config; layers = bad ∷ good ∷ [] }

abbrev json : Json
json = record {
  decode_index = λ b. err (external "no index");
  decode_manifest = λ b. ok manifest;
  decode_config = λ b. ok no_config;
  encode_manifest = λ m. ok [];
  encode_config = λ c. ok [];
}

abbrev pub media : MediaTypes
media = record {
  is_docker = λ t. false;
  is_index = λ t. false;
  is_manifest = λ t. t == codes "manifest";
  is_config = λ t. t == codes "config";
  is_layer = λ t. t == codes "layer";
}

-- The manifest is handled, and then its configuration.
abbrev resolver : Resolver
resolver = record {
  resolve = λ verify ref. ok (ref, record good { media_type = codes "manifest" });
  new_fetcher = λ verify name. ok fetcher;
  dispatch = λ h desc. (do h desc; h config; pure tt);
}

layer_fails :
    (extract_reference env resolver media json true none true
      (codes "i")
      (codes "/r")
      no_buckets
      0).0.1
    ≡ err (wrap "failed to fetch layer" (external "no such blob"))
unfolding program
layer_fails = refl

absolute : abs env.cwd (codes "/r") ≡ ok (codes "/r")
unfolding program
absolute = refl

untracked : root_exists memory no_buckets (codes "/r") ≡ false
unfolding program
untracked = refl

extract_reference-untracked_example :
    root_exists memory
      (extract_reference env resolver media json true none true
        (codes "i")
        (codes "/r")
        no_buckets
        0).0.0
      (codes "/r")
    ≡ false
extract_reference-untracked_example =
    extract_reference-untracked env resolver media json memory-IsLawful (λ x. refl) none true
      (codes "i") (codes "/r") (codes "/r") no_buckets 0 absolute untracked layer_fails
