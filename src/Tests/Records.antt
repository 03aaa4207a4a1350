-- ===== src/Tests/Records.antt =====
-- Image records put, stored, deleted and kept, leases ended and left, and a chain of snapshots removed.
use mysnapshotter.Prelude.{
  ◌<◌, ◌≡◌, refl, ap, true, false, none, some, Error, Option, List, [], ◌∷◌, arith, length, Text,
  codes, text_dec, nil_pointer, Result, ok, err,
}
use mysnapshotter.Prelude.Int.{pos}
use mysnapshotter.Extractor.System.{M, pure, ◌>>=◌, ◌>>◌, lift}
use mysnapshotter.Store.Registry.{Descriptor}
use mysnapshotter.Store.Containerd.{Image, Info}
use mysnapshotter.Store.Images.{delete_image}
use mysnapshotter.Store.Snapshots.{checked, remove_snapshots_chain}
use mysnapshotter.Store.Snapshots.Founded.{IsFounded, remove_snapshots_chain-ends}
use mysnapshotter.Store.Storing.{put_images, store_image, keep_first}
use mysnapshotter.Store.Catalog.{set}
use mysnapshotter.Store.Catalog.Puts.{PutMany, put_images-PutMany}
use mysnapshotter.Store.Catalog.Rounds.{store_image-once}
use mysnapshotter.Store.Catalog.Deletes.{Removed, delete_image-Removed}
use mysnapshotter.Store.Views.{Keeps}
use mysnapshotter.Store.Options.{apply_options}
use mysnapshotter.Store.Unpacking.{Unpacker, unpack, leased_strictly}
use mysnapshotter.Store.Leases.{Released, leased_strictly-Released}
use mysnapshotter.Store.Mounts.{Clock, mount, mount_key, mount_lease, mount_leased}
use mysnapshotter.Store.Mounts.Scratch.{mount-without_image}
use mysnapshotter.Store.Pulling.{Remote, pull}
use mysnapshotter.Store.Catalog.Pulls.{IsApart, Sets, pull-Sets}
use mysnapshotter.Tests.Stores.{State, found, parent_of, stores, records, catalog, leases}

program : Unit {0}
unfolding text_dec pull put_images store_image keep_first delete_image remove_snapshots_chain mount
    leased_strictly
program = tt

abbrev pub target : Text → Descriptor
target digest = record {
  media_type = codes "m";
  digest = digest;
  size = pos 1;
  annotations = λ k. none;
}

abbrev pub image : Text → Text → Image
image name digest = record { name = name; target = target digest; labels = [] }

abbrev pub old_image : Image
old_image = record (image (codes "a") (codes "1")) { labels = (codes "k", codes "v") ∷ [] }

-- One record, with a label.
abbrev pub before : State
before = (set old_image (λ n. none), [])

abbrev imports : List Image
imports = image (codes "a") (codes "2") ∷ image (codes "b") (codes "3") ∷ []

abbrev fields : List Text
fields = codes "target" ∷ []

-- The label of the old record is kept.
put_keeps_label :
    (put_images stores fields imports before).1.0 (codes "a")
    ≡ some (record old_image { target = target (codes "2") })
unfolding program
put_keeps_label = refl

put_images-PutMany_example :
    PutMany records fields imports before.0 (put_images stores fields imports before)
put_images-PutMany_example = put_images-PutMany stores catalog fields imports before

store_image-once_example :
    store_image stores 5 (image (codes "a") (codes "2")) before
    ≡ store_image stores 1 (image (codes "a") (codes "2")) before
store_image-once_example = store_image-once stores catalog 4 (image (codes "a") (codes "2")) before

-- The record goes, and the lease with it.
delete_leaves_none : (delete_image stores true 3 (codes "a") before).1.0 (codes "a") ≡ none
unfolding program
delete_leaves_none = refl

delete_image-Removed_example :
    Removed stores true catalog
      (codes "a")
      before.0
      (delete_image stores true 3 (codes "a") before).0
      (delete_image stores true 3 (codes "a") before).1.0
delete_image-Removed_example = delete_image-Removed stores true catalog 3 (codes "a") before

-- Two images with one name, of which none is left.
abbrev twins : List Image
twins = old_image ∷ old_image ∷ []

none_is_left : (keep_first stores true 3 twins before).1.0 (codes "a") ≡ none
unfolding program
none_is_left = refl

abbrev pub clock : Clock State
clock = record {
  now = λ w. (pos 7, w);
  format_rfc3339 = λ t. codes "t";
  unique_part = λ w. (codes "u", w);
}

abbrev pub unpacker : Unpacker stores
unpacker = record {
  new_unpacker = λ o w. (ok tt, w);
  walk_not_empty = λ d w. (ok tt, w);
  wait = λ w. (ok tt, w);
  is_empty_walk = λ e. false;
}

abbrev unpacks : M State (Unit {0})
unfolding unpack
unpacks = unpack stores unpacker (some old_image) []

unpacks-Keeps : Keeps (λ (w : State). w.1) unpacks
unfolding unpacks unpack
unpacks-Keeps w = refl

leased_strictly-Released_example :
    Released (λ (w : State). w.1) before.1 (leased_strictly stores true "lease" unpacks before)
leased_strictly-Released_example =
    leased_strictly-Released stores true leases "lease" unpacks before unpacks-Keeps

shorter :
    (key : Text) (info : Info) (w : State)
    → (found (parent_of key) w).0 ≡ ok info
    → length info.parent < length key
shorter [] info w h = absurd (cc)
shorter (c ∷ key) info w h =
    let e : key ≡ info.parent = ok_parent h in let same = ap length e in omega (arith, same)
  where
    ok_parent :
        ok (record { name = c ∷ key; parent = key; labels = [] }) ≡ ok info → key ≡ info.parent
    ok_parent h = ap (λ (r : Result Info). elim r [ ok i ↦ i.parent | err _ ↦ [] ]) h

length-IsFounded : IsFounded stores length
length-IsFounded key info w h _ = shorter key info w h

remove_snapshots_chain-ends_example :
    remove_snapshots_chain stores true 9 (codes "ab") none before
    ≡ remove_snapshots_chain stores true 3 (codes "ab") none before
remove_snapshots_chain-ends_example =
    remove_snapshots_chain-ends stores true length length-IsFounded 9 3 (codes "ab") none before
      (omega arith) (omega arith)

-- The mount fails, and the lease is left.
lease_is_left :
    mount stores true clock unpacker none (codes "t") (codes "k") false [] before
    ≡ (err nil_pointer, (before.0, codes "l" ∷ []))
unfolding program
lease_is_left = refl

mount-without_image_example :
    mount stores true clock unpacker none (codes "t") (codes "k") false [] before
    ≡ checked stores true
        (do
          m ← lift (apply_options [] (record { s_opts = []; a_opts = []; unpack = false }))
          key ← mount_key stores true clock unpacker (codes "t") (codes "k")
          mount_lease stores true clock unpacker key
          mount_leased stores true clock unpacker none (codes "t") key false m
          pure key)
        before
mount-without_image_example =
    mount-without_image stores true clock unpacker (codes "t") (codes "k") false [] before

abbrev pub remote : Remote State
remote = record {
  RemoteContext = Unit {0};
  new_context = tt;
  context_labels = λ c. [];
  Fetch = Unit {0};
  resolve = λ tls ref w. (ok (ref, target (codes "9")), w);
  new_fetcher = λ tls n w. (ok tt, w);
  source_label_handler = λ ref w. (ok tt, w);
  dispatch = λ c f d w. (ok (d ∷ []), w);
  convert_manifest = λ d w. (ok d, w);
  schema1_manifest = codes "old";
  legacy_config = codes "octets";
}

apart : IsApart stores catalog remote unpacker
apart = record {
  resolve-Keeps = λ tls ref w. refl;
  new_fetcher-Keeps = λ tls n w. refl;
  source_label-Keeps = λ ref w. refl;
  dispatch-Keeps = λ c f d w. refl;
  convert-Keeps = λ d w. refl;
  unpacks = record {
    new_unpacker-Keeps = λ o w. refl;
    walk-Keeps = λ d w. refl;
    wait-Keeps = λ w. refl;
  };
}

-- The record of that name is replaced, with its labels.
pull_replaces :
    (pull stores remote true unpacker 1 (codes "a") [] before).1.0 (codes "a")
    ≡ some (image (codes "a") (codes "9"))
unfolding program
pull_replaces = refl

pull-Sets_example :
    Sets stores true catalog remote unpacker
      (λ (q : Image × Option Error). q.0)
      before.0
      (pull stores remote true unpacker 1 (codes "a") [] before)
pull-Sets_example = pull-Sets stores true catalog remote unpacker apart 1 (codes "a") [] before
