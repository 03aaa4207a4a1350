-- ===== src/Commands/Steady.antt =====
-- Invariants of the stores that the commands keep: what the libraries keep, and the operations on leases,
-- snapshots and images.
pub mod Images
pub mod Unpacking
pub mod Mounting
pub mod Pulling
pub mod Reading
pub mod Archives
pub mod Importing
pub mod Running
pub mod Committing
use mysnapshotter.Prelude.{
  ℕ, zero, suc, String, Bool, true, false, Option, none, some, List, [], ◌∷◌, if◌then◌else◌, Text,
  codes, ◌==◌, Error, wrap, is_not_found, is_failed_precondition, Result, ok, err,
}
use mysnapshotter.Prelude.Int.{ℤ}
use mysnapshotter.Extractor.System.{M, pure, fail, ◌>>=◌, ◌>>◌, lift, named, attempt}
use mysnapshotter.Extractor.Maintaining.{
  IfOk, Whatever, Maintains, pure-Maintains, fail-Maintains, lift-Maintains, bind-Maintains,
  then-Maintains, named-Maintains, attempt-Maintains, settled-Maintains, if-Maintains,
  weaken-Maintains,
}
use mysnapshotter.Extractor.Confined.{any_ok}
use mysnapshotter.Store.Registry.{Descriptor}
use mysnapshotter.Store.Containerd.{Labels, Containerd, Image, Info}
use mysnapshotter.Store.Options.{ApplyCommitOpts}
use mysnapshotter.Store.Setup.{Stores}
use mysnapshotter.Store.Mounts.{Clock}
use mysnapshotter.Store.Unpacking.{Unpacker, end_strictly, leased_strictly}
use mysnapshotter.Store.Pulling.{Remote}
use mysnapshotter.Store.Archives.{Archive}
use mysnapshotter.Store.Content.{ContentStore}
use mysnapshotter.Store.Committing.{Differ}
use mysnapshotter.Store.Snapshots.{
  not_initiated, checked, with_lease, end_lease, leased, list_snapshots, deeper, after_parent,
  after_remove, after_stat, chain_round, remove_snapshots_chain,
}
use mysnapshotter.Store.Images.{
  get_image, is_unpacked, list_images, delete_leased, delete_image, depth_of, is_none_removed,
  remove_mount, umount,
}
use mysnapshotter.Commands.{Host, World}

-- The libraries keep the invariant, but a call that writes an image record does only for a name of the
-- set, and the names that the registry's references resolve to are in it if the reference is.
pub record IsSteady (H : Host) (Names Refs : Text → Type 0) (I : World H → Type 0) : Type 0 where
  pub lease_create :
      (id : Option Text) (l : Labels)
      → Maintains I Whatever (Containerd.lease_create H.containerd id l)
  pub lease_delete : (l : Text) → Maintains I Whatever (Containerd.lease_delete H.containerd l)
  pub image_get : (n : Text) → Maintains I Whatever (Containerd.image_get H.containerd n)
  pub image_list : Maintains I Whatever (Containerd.image_list H.containerd)
  pub image_update :
      (img : Image) (fs : List Text)
      → Names img.name
      → Maintains I Whatever (Containerd.image_update H.containerd img fs)
  pub image_create :
      (img : Image)
      → Names img.name
      → Maintains I Whatever (Containerd.image_create H.containerd img)
  pub image_delete :
      (n : Text) → Names n → Maintains I Whatever (Containerd.image_delete H.containerd n)
  pub root_fs : (img : Image) → Maintains I Whatever (Containerd.root_fs H.containerd img)
  pub snapshot_stat : (k : Text) → Maintains I Whatever (Containerd.snapshot_stat H.containerd k)
  pub snapshot_walk : Maintains I Whatever (Containerd.snapshot_walk H.containerd)
  pub snapshot_remove :
      (k : Text) → Maintains I Whatever (Containerd.snapshot_remove H.containerd k)
  pub snapshot_view :
      (k p : Text) (os : List (Containerd.SnapshotOpt H.containerd))
      → Maintains I Whatever (Containerd.snapshot_view H.containerd k p os)
  pub snapshot_prepare :
      (k p : Text) (os : List (Containerd.SnapshotOpt H.containerd))
      → Maintains I Whatever (Containerd.snapshot_prepare H.containerd k p os)
  pub snapshot_mounts :
      (k : Text) → Maintains I Whatever (Containerd.snapshot_mounts H.containerd k)
  pub snapshot_commit :
      (n k : Text) (os : List (Containerd.SnapshotOpt H.containerd))
      → Maintains I Whatever (Containerd.snapshot_commit H.containerd n k os)
  pub mount_all :
      (m : Containerd.Mounts H.containerd) (t : Text)
      → Maintains I Whatever (Containerd.mount_all H.containerd m t)
  pub unmount_all : (t : Text) → Maintains I Whatever (Containerd.unmount_all H.containerd t)
  pub now : (w : World H) → I w → I (Clock.now H.clock w).1
  pub unique_part : (w : World H) → I w → I (Clock.unique_part H.clock w).1
  pub new_unpacker :
      (o : ApplyCommitOpts H.containerd) → Maintains I Whatever (Unpacker.new_unpacker H.unpacker o)
  pub walk_layers : (d : Descriptor) → Maintains I Whatever (Unpacker.walk_not_empty H.unpacker d)
  pub wait : Maintains I Whatever (Unpacker.wait H.unpacker)
  pub resolve :
      (tls : Bool) (ref : Text)
      → Refs ref
      → Maintains I (λ (q : Text × Descriptor). Names q.0) (Remote.resolve H.remote tls ref)
  pub new_fetcher :
      (tls : Bool) (n : Text) → Maintains I Whatever (Remote.new_fetcher H.remote tls n)
  pub source_label : (ref : Text) → Maintains I Whatever (Remote.source_label_handler H.remote ref)
  pub dispatch :
      (c : Remote.RemoteContext H.remote) (f : Remote.Fetch H.remote) (d : Descriptor)
      → Maintains I Whatever (Remote.dispatch H.remote c f d)
  pub convert_manifest :
      (d : Descriptor) → Maintains I Whatever (Remote.convert_manifest H.remote d)
  pub open_file : (f : Text) → Maintains I Whatever (Archive.open_file H.archive f)
  pub close_file :
      (r : Archive.Reader H.archive) → Maintains I Whatever (Archive.close_file H.archive r)
  pub import_index :
      (b : Bool) (r : Archive.Reader H.archive)
      → Maintains I Whatever (Archive.import_index H.archive b r)
  pub children : (d : Descriptor) → Maintains I Whatever (Archive.children H.archive d)
  pub walk_archive :
      (m : Archive.Matcher H.archive) (r : Option (Archive.Referrers H.archive)) (b : Bool)
      (h : Descriptor → M (World H × List Image) (List Descriptor))
      → ((d : Descriptor) → Maintains (λ s. I s.0) Whatever (h d))
      → (d : Descriptor)
      → Maintains (λ s. I s.0) Whatever (Archive.walk_not_empty H.archive m r b h d)
  pub read_blob : (d : Descriptor) → Maintains I Whatever (ContentStore.read_blob H.contents d)
  pub write_blob :
      (ref : Text) (b : List ℕ) (d : Descriptor) (l : Labels)
      → Maintains I Whatever (ContentStore.write_blob H.contents ref b d l)
  pub content_info : (d : Text) → Maintains I Whatever (ContentStore.content_info H.contents d)
  pub config_of : (img : Image) → Maintains I Whatever (ContentStore.config_of H.contents img)
  pub new_diff : (k : Text) → Maintains I Whatever (Differ.new_diff H.differ k)
  pub apply_diff :
      (d : Descriptor) (m : Containerd.Mounts H.containerd)
      → Maintains I Whatever (Differ.apply_diff H.differ d m)
  pub new_snapshotter : (p : Text) → Maintains I Whatever (Stores.new_snapshotter H.stores p)
  pub open_bolt : (p : Text) → Maintains I Whatever (Stores.open_bolt H.stores p)
  pub new_content_store : (p : Text) → Maintains I Whatever (Stores.new_content_store H.stores p)
  pub init_db : (n : Text) → Maintains I Whatever (Stores.init_db H.stores n)
  pub garbage_collect : Maintains I Whatever (Stores.garbage_collect H.stores)
  pub close_snapshotter : (d : Text) → Maintains I Whatever (H.close_snapshotter d)
