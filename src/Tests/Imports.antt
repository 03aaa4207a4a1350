-- ===== src/Tests/Imports.antt =====
-- An archive with one image that is imported.
use mysnapshotter.Prelude.{
  ◌≡◌, refl, ◌∙◌, true, none, some, List, [], ◌∷◌, if◌then◌else◌, codes, text_dec, ◌==◌, external,
  Result, ok, err,
}
use mysnapshotter.Prelude.Int.{pos}
use mysnapshotter.Extractor.System.{pure, after, ◌>>◌}
use mysnapshotter.Store.Registry.{Descriptor}
use mysnapshotter.Store.Containerd.{Image}
use mysnapshotter.Store.Content.{ContentStore, Json}
use mysnapshotter.Store.Commits.{no_config}
use mysnapshotter.Store.Archives.{Archive, ImportOpt, with_import_index_name}
use mysnapshotter.Store.Importing.{import_func, single_import_file}
use mysnapshotter.Store.Catalog.Holding.{Holds}
use mysnapshotter.Store.Catalog.Imports.{IsImporting, stored_of, import_func-Holds}
use mysnapshotter.Store.Catalog.Singles.{IsFiling, FirstOnly, single_import_file-FirstOnly}
use mysnapshotter.Tests.Stores.{State, stores, records, catalog}
use mysnapshotter.Tests.Records.{before, unpacker}

program : Unit {0}
unfolding text_dec import_func
program = tt

abbrev pub member : Descriptor
member = record {
  media_type = codes "m";
  digest = codes "7";
  size = pos 1;
  annotations = λ k. if k == codes "name" then some (codes "b") else none;
}

abbrev pub index : Descriptor
index = record member { digest = codes "i" }

abbrev pub json : Json
json = record {
  decode_index = λ b. ok (member ∷ []);
  decode_manifest = λ b. err (external "no manifest");
  decode_config = λ b. ok no_config;
  encode_manifest = λ m. ok [];
  encode_config = λ c. ok [];
}

abbrev pub contents : ContentStore State
contents = record {
  read_blob = λ desc w. (ok [], w);
  write_blob = λ digest b desc labels w. (ok tt, w);
  content_info = λ d w. (ok (pos 1, []), w);
  config_of = λ img w. (ok member, w);
  digest_of = λ b. b;
  parse_digest = λ t. ok t;
  same_descriptor = λ a b. a.digest == b.digest;
}

-- The walk handles the index alone.
abbrev pub archive : Archive State
archive = record {
  Reader = Unit {0};
  open_file = λ f w. (ok tt, w);
  close_file = λ r w. (ok tt, w);
  import_index = λ c r w. (ok index, w);
  children = λ d w. (ok [], w);
  Matcher = Unit {0};
  all_platforms = tt;
  store_platform = tt;
  Referrers = Unit {0};
  walk_not_empty = λ m r d h desc. (do h desc; pure tt);
  skip_desc = external "skip";
  annotation_image_name = codes "name";
  annotation_ref_name = codes "ref";
  annotation_manifest_subject = codes "subject";
}

walked_once :
    (x : Result (List Descriptor) × (State × List Image))
    → records (after {B = Unit {0}} x (λ _. pure tt)).1.0 ≡ records x.1.0
walked_once (ok _, s) = refl
walked_once (err e, s) = refl

importing : IsImporting stores catalog contents archive unpacker
importing = record {
  read_blob-Keeps = λ d w. refl;
  children-Keeps = λ d w. refl;
  import_index-Keeps = λ b r w. refl;
  walk-Keeps = λ m r b h k d s. walked_once (h d s) ∙ k d s;
  unpacks = record {
    new_unpacker-Keeps = λ o w. refl;
    walk-Keeps = λ d w. refl;
    wait-Keeps = λ w. refl;
  };
}

-- The image is new in the store.
import_creates :
    (import_func stores true contents json archive unpacker tt [] before).1.0 (codes "b")
    ≡ some (record { name = codes "b"; target = member; labels = [] })
unfolding program
import_creates = refl

import_func-Holds_example :
    Holds stores catalog stored_of before.0
      (import_func stores true contents json archive unpacker tt [] before)
import_func-Holds_example =
    import_func-Holds stores true catalog contents json archive unpacker importing tt [] before

-- The index has a name too, so that there are two images.
abbrev two : List (ImportOpt stores archive)
two = with_import_index_name stores archive (codes "c") ∷ []

keeps_index :
    (single_import_file stores true contents json archive unpacker 3 (codes "f") two before).0
    ≡ ok (record { name = codes "c"; target = index; labels = [] })
unfolding program single_import_file
keeps_index = refl

drops_member :
    (single_import_file stores true contents json archive unpacker 3 (codes "f") two before).1.0
      (codes "b")
    ≡ none
unfolding program single_import_file
drops_member = refl

filing : IsFiling stores true catalog contents json archive unpacker importing
filing = record { open_file-Keeps = λ f w. refl; close_file-Keeps = λ r w. refl }

single_import_file-FirstOnly_example :
    FirstOnly stores true catalog contents json archive unpacker importing filing 3
      (codes "f")
      two
      before.0
      (single_import_file stores true contents json archive unpacker 3 (codes "f") two before).0
      (single_import_file stores true contents json archive unpacker 3 (codes "f") two before).1.0
single_import_file-FirstOnly_example =
    single_import_file-FirstOnly stores true catalog contents json archive unpacker importing filing
      3 (codes "f") two before
