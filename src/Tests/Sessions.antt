-- ===== src/Tests/Sessions.antt =====
-- Sequences of commands on stores in memory.
use mysnapshotter.Prelude.{
  ◌≡◌, refl, true, false, none, some, List, [], ◌∷◌, All, codes, text_dec, wrap, not_found, ok, err,
}
use mysnapshotter.Extractor.Maintaining.{pure-Maintains, then-Maintains}
use mysnapshotter.Store.Setup.{Stores, init_store}
use mysnapshotter.Store.Images.{get_image, delete_image}
use mysnapshotter.Store.Snapshots.{remove_snapshots_chain}
use mysnapshotter.Store.Pulling.{pull}
use mysnapshotter.Store.Committing.{Differ}
use mysnapshotter.Store.Importing.{import_func}
use mysnapshotter.Commands.{Host, Command, list_cmd, pull_cmd, delete_cmd, import_cmd, execute}
use mysnapshotter.Commands.Sessions.{session}
use mysnapshotter.Commands.Sessions.Records.{IsSeparate}
use mysnapshotter.Commands.Sessions.Names.{IsSparing, session-spared}
use mysnapshotter.Commands.Sessions.Pulled.{Reads, get_image-pull}
use mysnapshotter.Tests.Stores.{State, stores, records, catalog}
use mysnapshotter.Tests.Records.{before, image, clock, unpacker, remote}
use mysnapshotter.Tests.Imports.{member, json, contents, archive}
use mysnapshotter.Tests.References.{media}

program : Unit {0}
unfolding session init_store text_dec pull delete_image remove_snapshots_chain
program = tt

abbrev opened : Stores State
opened = record {
  new_snapshotter = λ p w. (ok tt, w);
  open_bolt = λ p w. (ok tt, w);
  new_content_store = λ p w. (ok tt, w);
  init_db = λ n w. (ok tt, w);
  garbage_collect = λ w. (ok tt, w);
}

abbrev differ : Differ stores
differ = record {
  docker_config = codes "c";
  docker_manifest = codes "m";
  docker_layer_gzip = codes "l";
  new_diff = λ k w. (ok member, w);
  apply_diff = λ d m w. (ok d, w);
}

abbrev host : Host
host = record {
  containerd = stores;
  stores = opened;
  close_snapshotter = λ d w. (ok tt, w);
  clock = clock;
  unpacker = unpacker;
  remote = remote;
  archive = archive;
  contents = contents;
  json = json;
  media_types = media;
  differ = differ;
  goarch = codes "amd64";
  goos = codes "linux";
  marshal_images = λ imgs. ok [];
  marshal_snapshots = λ infos. ok [];
}

separate : IsSeparate host catalog
separate = record {
  list-Keeps = λ w. refl;
  walk-Keeps = λ w. refl;
  view-Keeps = λ k p os w. refl;
  prepare-Keeps = λ k p os w. refl;
  mounts-Keeps = λ k w. refl;
  commit-Keeps = λ n k os w. refl;
  mount_all-Keeps = λ m t w. refl;
  unmount_all-Keeps = λ t w. refl;
  now_keeps = λ w. refl;
  unique_part_keeps = λ w. refl;
  new_unpacker-Keeps = λ o w. refl;
  walk_layers-Keeps = λ d w. refl;
  wait-Keeps = λ w. refl;
  resolve-Keeps = λ tls ref w. refl;
  new_fetcher-Keeps = λ tls n w. refl;
  source_label-Keeps = λ ref w. refl;
  dispatch-Keeps = λ c f d w. refl;
  convert-Keeps = λ d w. refl;
  open_file-Keeps = λ f w. refl;
  close_file-Keeps = λ r w. refl;
  import_index-Keeps = λ b r w. refl;
  children-Keeps = λ d w. refl;
  walk_archive-Maintains =
      λ I m r b h k d. then-Maintains (λ s. I s.0) (k d) (pure-Maintains (λ s. I s.0) tt tt);
  read_blob-Keeps = λ d w. refl;
  write_blob-Keeps = λ ref b d l w. refl;
  content_info-Keeps = λ d w. refl;
  config_of-Keeps = λ img w. refl;
  new_diff-Keeps = λ k w. refl;
  apply_diff-Keeps = λ d m w. refl;
  new_snapshotter-Keeps = λ p w. refl;
  open_bolt-Keeps = λ p w. refl;
  new_content_store-Keeps = λ p w. refl;
  init_db-Keeps = λ n w. refl;
  garbage_collect-Keeps = λ w. refl;
  close_snapshotter-Keeps = λ d w. refl;
}

-- The image `b` is pulled and deleted; the last deletion fails.
abbrev commands : List Command
commands =
    pull_cmd true (codes "b")
    ∷ list_cmd false
    ∷ delete_cmd (codes "b")
    ∷ delete_cmd (codes "c")
    ∷ []

fails_at_last :
    (execute host 3 (codes "/s") (delete_cmd (codes "c")) before).0
    ≡ err (wrap "getting image from store" not_found)
unfolding program execute
fails_at_last = refl

sparing : All (IsSparing host catalog separate (codes "a")) commands
unfolding text_dec
sparing = ((λ tls w. refl), (tt, (refl, (refl, tt))))

session-spared_example :
    records (session host 3 (codes "/s") commands before) (codes "a") ≡ records before (codes "a")
session-spared_example =
    session-spared host catalog separate (codes "a") 3 (codes "/s") commands before sparing

-- An import of an image that is new.
import_creates :
    records (session host 3 (codes "/s") (import_cmd false (codes "f") ∷ []) before) (codes "b")
    ≡ some (record { name = codes "b"; target = member; labels = [] })
unfolding program import_func
import_creates = refl

reads : Reads host catalog
reads n w img e = rw e refl

abbrev pulled : State
unfolding program
pulled = (pull stores remote true unpacker 1 (codes "d") [] before).1

pulled_eq :
    pull stores remote true unpacker 1 (codes "d") [] before
    ≡ (ok (image (codes "d") (codes "9"), none), pulled)
unfolding program
pulled_eq = refl

IsSparing-d : All (IsSparing host catalog separate (codes "d")) commands
unfolding text_dec
IsSparing-d = ((λ tls w. refl), (tt, (refl, (refl, tt))))

get_image-pull_example :
    (get_image stores true (codes "d") (session host 1 (codes "/s") commands pulled)).0
    ≡ ok (image (codes "d") (codes "9"))
get_image-pull_example =
    get_image-pull host catalog separate reads before pulled 1 (codes "d") []
      (image (codes "d") (codes "9")) none pulled_eq (codes "/s") commands IsSparing-d
