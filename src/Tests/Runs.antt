-- ===== src/Tests/Runs.antt =====
-- Two layers of which the lower one fails, a table of contents from a registry, and a walk over
-- snapshots.
use mysnapshotter.Prelude.{
  if◌then◌else◌, ℕ, suc, ◌≡◌, refl, true, false, none, some, List, [], ◌∷◌, if◌then◌else◌, Text,
  codes, text_dec, ◌==◌, message, wrap, external, is_not_found, is_already_exists, ok, err,
}
use mysnapshotter.Prelude.Int.{pos}
use mysnapshotter.Prelude.Int64.{add64, sub64}
use mysnapshotter.Chunked.Data.{Toc, TocLocation}
use mysnapshotter.Chunked.Footer.{parse_footer_frame, footer_frame_size}
use mysnapshotter.Chunked.Footer.Layout.{footer_frame}
use mysnapshotter.Chunked.Toc.{Annotations, parse_annotations, Codecs}
use mysnapshotter.FileDb.Memory.{memory, BucketMap, no_buckets}
use mysnapshotter.FileDb.{root_exists, update}
use mysnapshotter.Store.Registry.{Descriptor, Fetcher, fetch_range, get_toc_location, fetch_toc}
use mysnapshotter.Store.Registry.Location.{get_toc_location-ok, fetch_toc-unverified}
use mysnapshotter.Extractor.System.{Reply, Os}
use mysnapshotter.Extractor.Image.{Env, extract_image}
use mysnapshotter.Tests.Sorts.{by_insertion, insertion_sort}
use mysnapshotter.Extractor.Ranges.{group_missing_files}
use mysnapshotter.Tests.Idle.{idle}
use mysnapshotter.Store.Containerd.{Containerd}
use mysnapshotter.Store.Snapshots.{remove_snapshots_chain}

program : Unit {0}
unfolding extract_image fetch_toc get_toc_location text_dec update add64 sub64 insertion_sort
    group_missing_files remove_snapshots_chain
program = tt

abbrev pub no_notes : Annotations
no_notes k = none

abbrev pub good : Descriptor
good = record {
  media_type = codes "layer";
  digest = codes "good";
  size = pos 2000;
  annotations = no_notes;
}

abbrev pub bad : Descriptor
bad = record good { digest = codes "bad" }

abbrev location : TocLocation
location = record { offset = 1000; length_compressed = 2; length_uncompressed = 300; digest = [] }

-- Every range of the good blob begins with a footer frame.
abbrev pub fetcher : Fetcher
fetcher = record {
  fetch = λ target desc.
      if desc.digest == codes "good"
      then ok (footer_frame location 0 0 0)
      else err (external "no such blob");
  close = none;
  encoded = λ d. d;
}

abbrev pub empty_toc : Toc
empty_toc = record { version = pos 1; entries = []; tar_split_digest = [] }

abbrev pub codecs : Codecs
codecs = record {
  sha256 = λ bytes. 10 ∷ [];
  new_reader = none;
  decode_all = λ bytes. ok bytes;
  unmarshal_toc = λ bytes. ok empty_toc;
}

-- The world counts the calls.
abbrev pub os : Os
os = record {
  World = ℕ;
  call = λ c w. (ok Reply.done, suc w);
  is_not_exist = is_not_found;
  is_exist = is_already_exists;
  is_clone_unsupported = λ e. false;
}

abbrev pub env : Env
env = record {
  os = os;
  bolt = memory;
  fetcher = fetcher;
  codecs = codecs;
  zstd = record { new_reader = none; decode = λ bytes. (bytes, none) };
  decode_base64 = λ t. ok t;
  sort_entries = by_insertion;
  sort_files = by_insertion;
  cwd = ok (codes "/");
  headers = λ desc. err (external "no such blob");
  extract_entry = λ hdr w. (ok tt, w);
}

abbrev pub root : Text
root = codes "/r"

located : get_toc_location fetcher good ≡ ok location
unfolding program
located = refl

get_toc_location-ok_example :
    ((r : List ℕ) × (fetch_range fetcher good
          (sub64 good.size (pos footer_frame_size))
          (pos footer_frame_size)
        ≡ ok r)
      × (parse_footer_frame r ≡ ok location))
    × ((noted : TocLocation)
        → parse_annotations good.annotations ≡ ok noted
        → (location.offset ≡ noted.offset)
          × (location.length_compressed ≡ noted.length_compressed)
          × (location.length_uncompressed ≡ noted.length_uncompressed))
    × (location.digest ≡ [])
get_toc_location-ok_example = get_toc_location-ok fetcher good located

fetch_toc-unverified_example :
    fetch_toc fetcher codecs good
    ≡ fetch_toc fetcher (record codecs { sha256 = λ bytes. bytes }) good
fetch_toc-unverified_example = fetch_toc-unverified fetcher codecs (λ bytes. bytes) good

-- The good layer alone is extracted and tracked.
good_is_tracked :
    root_exists memory (extract_image env true root (good ∷ []) no_buckets 0).0.0 root ≡ true
unfolding program
good_is_tracked = refl

untracked : root_exists memory no_buckets root ≡ false
unfolding program
untracked = refl

failed :
    (extract_image env true root (bad ∷ good ∷ []) no_buckets 0).0.1
    ≡ err (wrap "failed to fetch layer" (external "no such blob"))
unfolding program
failed = refl

abbrev tracked : BucketMap
unfolding program
tracked = (extract_image env true root (good ∷ []) no_buckets 0).0.0

refused_when_tracked :
    extract_image env true root (good ∷ []) tracked 0
    ≡ ((tracked, err (message "cannot extract data to an already cached root")), 0)
unfolding program
refused_when_tracked = refl

-- A chain of snapshots, each the parent of itself; the world counts the removals.
abbrev containerd : Containerd
containerd = record (idle ℕ) {
  snapshot_stat = λ key w. (ok (record { name = key; parent = key; labels = [] }), w);
  snapshot_remove = λ key w. (ok tt, suc w);
}

removes_three : remove_snapshots_chain containerd true 3 (codes "k") (some 2) 0 ≡ (ok tt, 3)
unfolding program
removes_three = refl
