-- ===== src/Commands/Sessions/Records.antt =====
-- What sequences of commands leave of the image records.
use mysnapshotter.Prelude.{ℕ, Bool, Option, List, ◌≡◌, sym, ap, Text, Result, ok, err}
use mathlib.Core.Path.{subst}
use mysnapshotter.Extractor.System.{M}
use mysnapshotter.Extractor.Maintaining.{IfOk, Whatever, Maintains}
use mysnapshotter.Extractor.Confined.{any_ok}
use mysnapshotter.Store.Registry.{Descriptor}
use mysnapshotter.Store.Containerd.{Labels, Containerd, Image}
use mysnapshotter.Store.Options.{ApplyCommitOpts}
use mysnapshotter.Store.Setup.{Stores}
use mysnapshotter.Store.Mounts.{Clock}
use mysnapshotter.Store.Unpacking.{Unpacker}
use mysnapshotter.Store.Pulling.{Remote}
use mysnapshotter.Store.Archives.{Archive}
use mysnapshotter.Store.Content.{ContentStore}
use mysnapshotter.Store.Committing.{Differ}
use mysnapshotter.Store.Views.{Keeps}
use mysnapshotter.Store.Catalog.{Records, set, unset, Updated, Created, Deleted, Catalog}
use mysnapshotter.Commands.{Host, World}
use mysnapshotter.Commands.Steady.{IsSteady}

-- The calls that are not of the image store leave the image records alone.
pub record IsSeparate (H : Host) (L : Catalog H.containerd) : Type 1 where
  pub list-Keeps : Keeps (Catalog.view L) (Containerd.image_list H.containerd)
  pub walk-Keeps : Keeps (Catalog.view L) (Containerd.snapshot_walk H.containerd)
  pub view-Keeps :
      (k p : Text) (os : List (Containerd.SnapshotOpt H.containerd))
      → Keeps (Catalog.view L) (Containerd.snapshot_view H.containerd k p os)
  pub prepare-Keeps :
      (k p : Text) (os : List (Containerd.SnapshotOpt H.containerd))
      → Keeps (Catalog.view L) (Containerd.snapshot_prepare H.containerd k p os)
  pub mounts-Keeps : (k : Text) → Keeps (Catalog.view L) (Containerd.snapshot_mounts H.containerd k)
  pub commit-Keeps :
      (n k : Text) (os : List (Containerd.SnapshotOpt H.containerd))
      → Keeps (Catalog.view L) (Containerd.snapshot_commit H.containerd n k os)
  pub mount_all-Keeps :
      (m : Containerd.Mounts H.containerd) (t : Text)
      → Keeps (Catalog.view L) (Containerd.mount_all H.containerd m t)
  pub unmount_all-Keeps :
      (t : Text) → Keeps (Catalog.view L) (Containerd.unmount_all H.containerd t)
  pub now_keeps : (w : World H) → Catalog.view L (Clock.now H.clock w).1 ≡ Catalog.view L w
  pub unique_part_keeps :
      (w : World H) → Catalog.view L (Clock.unique_part H.clock w).1 ≡ Catalog.view L w
  pub new_unpacker-Keeps :
      (o : ApplyCommitOpts H.containerd)
      → Keeps (Catalog.view L) (Unpacker.new_unpacker H.unpacker o)
  pub walk_layers-Keeps :
      (d : Descriptor) → Keeps (Catalog.view L) (Unpacker.walk_not_empty H.unpacker d)
  pub wait-Keeps : Keeps (Catalog.view L) (Unpacker.wait H.unpacker)
  pub resolve-Keeps :
      (tls : Bool) (ref : Text) → Keeps (Catalog.view L) (Remote.resolve H.remote tls ref)
  pub new_fetcher-Keeps :
      (tls : Bool) (n : Text) → Keeps (Catalog.view L) (Remote.new_fetcher H.remote tls n)
  pub source_label-Keeps :
      (ref : Text) → Keeps (Catalog.view L) (Remote.source_label_handler H.remote ref)
  pub dispatch-Keeps :
      (c : Remote.RemoteContext H.remote) (f : Remote.Fetch H.remote) (d : Descriptor)
      → Keeps (Catalog.view L) (Remote.dispatch H.remote c f d)
  pub convert-Keeps : (d : Descriptor) → Keeps (Catalog.view L) (Remote.convert_manifest H.remote d)
  pub open_file-Keeps : (f : Text) → Keeps (Catalog.view L) (Archive.open_file H.archive f)
  pub close_file-Keeps :
      (r : Archive.Reader H.archive) → Keeps (Catalog.view L) (Archive.close_file H.archive r)
  pub import_index-Keeps :
      (b : Bool) (r : Archive.Reader H.archive)
      → Keeps (Catalog.view L) (Archive.import_index H.archive b r)
  pub children-Keeps : (d : Descriptor) → Keeps (Catalog.view L) (Archive.children H.archive d)
  -- The walk over an archive does to the world what its handler does: it keeps what the handler keeps.
  pub walk_archive-Maintains :
      (I : World H → Type 0) (m : Archive.Matcher H.archive)
      (r : Option (Archive.Referrers H.archive)) (b : Bool)
      (h : Descriptor → M (World H × List Image) (List Descriptor))
      → ((d : Descriptor) → Maintains (λ s. I s.0) Whatever (h d))
      → (d : Descriptor)
      → Maintains (λ s. I s.0) Whatever (Archive.walk_not_empty H.archive m r b h d)
  pub read_blob-Keeps :
      (d : Descriptor) → Keeps (Catalog.view L) (ContentStore.read_blob H.contents d)
  pub write_blob-Keeps :
      (ref : Text) (b : List ℕ) (d : Descriptor) (l : Labels)
      → Keeps (Catalog.view L) (ContentStore.write_blob H.contents ref b d l)
  pub content_info-Keeps :
      (d : Text) → Keeps (Catalog.view L) (ContentStore.content_info H.contents d)
  pub config_of-Keeps :
      (img : Image) → Keeps (Catalog.view L) (ContentStore.config_of H.contents img)
  pub new_diff-Keeps : (k : Text) → Keeps (Catalog.view L) (Differ.new_diff H.differ k)
  pub apply_diff-Keeps :
      (d : Descriptor) (m : Containerd.Mounts H.containerd)
      → Keeps (Catalog.view L) (Differ.apply_diff H.differ d m)
  pub new_snapshotter-Keeps :
      (p : Text) → Keeps (Catalog.view L) (Stores.new_snapshotter H.stores p)
  pub open_bolt-Keeps : (p : Text) → Keeps (Catalog.view L) (Stores.open_bolt H.stores p)
  pub new_content_store-Keeps :
      (p : Text) → Keeps (Catalog.view L) (Stores.new_content_store H.stores p)
  pub init_db-Keeps : (n : Text) → Keeps (Catalog.view L) (Stores.init_db H.stores n)
  pub garbage_collect-Keeps : Keeps (Catalog.view L) (Stores.garbage_collect H.stores)
  pub close_snapshotter-Keeps : (d : Text) → Keeps (Catalog.view L) (H.close_snapshotter d)

-- A property of the records that setting and deleting records with these names keeps.
pub record IsClosed (Names : Text → Type 0) (J : Records → Type 0) : Type 0 where
  pub set_closed : (img : Image) (r : Records) → Names img.name → J r → J (set img r)
  pub unset_closed : (n : Text) (r : Records) → Names n → J r → J (unset n r)

module _ (H : Host) (L : Catalog H.containerd) (P : IsSeparate H L) (Names : Text → Type 0)
    (J : Records → Type 0) (K : IsClosed Names J) where
  abbrev C : Containerd
  C = H.containerd

  -- The references that only resolve to names of the set.
  abbrev pub IsResolved : Text → Type 0
  IsResolved ref =
      (tls : Bool) (w : World H)
      → IfOk (λ (q : Text × Descriptor). Names q.0) (H.remote.resolve tls ref w).0

  abbrev pub Holding : World H → Type 0
  Holding w = J (Catalog.view L w)

  kept : {A : Type 0} (m : M (World H) A) → Keeps (Catalog.view L) m → Maintains Holding Whatever m
  kept m k = record { run = λ w i. (subst J (sym (k w)) i, any_ok (m w).0) }

  updated :
      (img : Image) (fields : List Text) (r : Records) (x : Result Image × World H)
      → Names img.name
      → J r
      → Updated (Catalog.view L) r fields img x
      → Holding x.1
  updated img fields r (ok j, w) p i (old, _, m, v) =
      subst J (sym v) (K.set_closed j r (subst Names (sym (ap (λ (k : Image). k.name) m)) p) i)
  updated img fields r (err e, w) p i (v, _) = subst J (sym v) i

  created :
      (img : Image) (r : Records) (x : Result Image × World H)
      → Names img.name
      → J r
      → Created (Catalog.view L) r img x
      → Holding x.1
  created img r (ok j, w) p i (_, _, v) = subst J (sym v) (K.set_closed img r p i)
  created img r (err e, w) p i (v, _) = subst J (sym v) i

  deleted :
      (n : Text) (r : Records) (x : Result (Unit {0}) × World H)
      → Names n
      → J r
      → Deleted (Catalog.view L) r n x
      → Holding x.1
  deleted n r (ok _, w) p i v = subst J (sym v) (K.unset_closed n r p i)
  deleted n r (err e, w) p i v = subst J (sym v) i

  -- So a property that is closed under these writes is one that the libraries keep.
  pub records-IsSteady : IsSteady H Names IsResolved Holding
  records-IsSteady = record {
    lease_create = λ id l. kept _ (Catalog.create_lease-Keeps L id l);
    lease_delete = λ l. kept _ (Catalog.delete_lease-Keeps L l);
    image_get = λ n. kept _ (Catalog.get-Keeps L n);
    image_list = kept _ P.list-Keeps;
    image_update = λ img fs p. record {
      run = λ w i.
          (updated img fs (Catalog.view L w) _ p i (Catalog.update_lem L img fs w), any_ok _);
    };
    image_create = λ img p. record {
      run = λ w i. (created img (Catalog.view L w) _ p i (Catalog.create_lem L img w), any_ok _);
    };
    image_delete = λ n p. record {
      run = λ w i. (deleted n (Catalog.view L w) _ p i (Catalog.delete_lem L n w), any_ok _);
    };
    root_fs = λ img. kept _ (Catalog.root_fs-Keeps L img);
    snapshot_stat = λ k. kept _ (Catalog.stat-Keeps L k);
    snapshot_walk = kept _ P.walk-Keeps;
    snapshot_remove = λ k. kept _ (Catalog.remove-Keeps L k);
    snapshot_view = λ k p os. kept _ (P.view-Keeps k p os);
    snapshot_prepare = λ k p os. kept _ (P.prepare-Keeps k p os);
    snapshot_mounts = λ k. kept _ (P.mounts-Keeps k);
    snapshot_commit = λ n k os. kept _ (P.commit-Keeps n k os);
    mount_all = λ m t. kept _ (P.mount_all-Keeps m t);
    unmount_all = λ t. kept _ (P.unmount_all-Keeps t);
    now = λ w i. subst J (sym (P.now_keeps w)) i;
    unique_part = λ w i. subst J (sym (P.unique_part_keeps w)) i;
    new_unpacker = λ o. kept _ (P.new_unpacker-Keeps o);
    walk_layers = λ d. kept _ (P.walk_layers-Keeps d);
    wait = kept _ P.wait-Keeps;
    resolve =
        λ tls ref h. record { run = λ w i. (subst J (sym (P.resolve-Keeps tls ref w)) i, h tls w) };
    new_fetcher = λ tls n. kept _ (P.new_fetcher-Keeps tls n);
    source_label = λ ref. kept _ (P.source_label-Keeps ref);
    dispatch = λ c f d. kept _ (P.dispatch-Keeps c f d);
    convert_manifest = λ d. kept _ (P.convert-Keeps d);
    open_file = λ f. kept _ (P.open_file-Keeps f);
    close_file = λ r. kept _ (P.close_file-Keeps r);
    import_index = λ b r. kept _ (P.import_index-Keeps b r);
    children = λ d. kept _ (P.children-Keeps d);
    walk_archive = P.walk_archive-Maintains Holding;
    read_blob = λ d. kept _ (P.read_blob-Keeps d);
    write_blob = λ ref b d l. kept _ (P.write_blob-Keeps ref b d l);
    content_info = λ d. kept _ (P.content_info-Keeps d);
    config_of = λ img. kept _ (P.config_of-Keeps img);
    new_diff = λ k. kept _ (P.new_diff-Keeps k);
    apply_diff = λ d m. kept _ (P.apply_diff-Keeps d m);
    new_snapshotter = λ p. kept _ (P.new_snapshotter-Keeps p);
    open_bolt = λ p. kept _ (P.open_bolt-Keeps p);
    new_content_store = λ p. kept _ (P.new_content_store-Keeps p);
    init_db = λ n. kept _ (P.init_db-Keeps n);
    garbage_collect = kept _ P.garbage_collect-Keeps;
    close_snapshotter = λ d. kept _ (P.close_snapshotter-Keeps d);
  }
