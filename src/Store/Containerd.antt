-- ===== src/Store/Containerd.antt =====
-- What pkg/ocistore calls of containerd's libraries: leases, the image store, the snapshotter, mounts,
-- and the reading of an image's contents. They are not under this repository, so they are parameters.
use mysnapshotter.Prelude.{Bool, Option, List, Text, codes, Result}
use mysnapshotter.Store.Registry.{Descriptor}

-- A map from labels to values.
abbrev pub Labels : Type 0
Labels = List (Text × Text)

-- `images.Image`.
pub record Image : Type 0 where
  pub name : Text
  pub target : Descriptor
  pub labels : Labels

-- `snapshots.Info`, as far as it is read.
pub record Info : Type 0 where
  pub name : Text
  pub parent : Text
  pub labels : Labels

-- `overlayDriver`, the driver that `NewOCIStore` sets.
abbrev pub driver : Text
driver = codes "overlayfs"

-- `LabelSnapshotImgRef`.
abbrev pub label_snapshot_img_ref : Text
label_snapshot_img_ref = codes "containerd.io/snapshot/image.ref"

pub record Containerd : Type 1 where
  pub World : Type 0
  pub Mounts : Type 0
  -- `snapshots.Opt` with `snapshots.WithLabels`, and `diff.ApplyOpt`.
  pub SnapshotOpt : Type 0
  pub ApplyOpt : Type 0
  pub with_labels : Labels → SnapshotOpt
  -- `leases.FromContext` on the store's context, and the lease manager. A lease may have a given
  -- name, with a label.
  pub leased_context : Bool
  pub lease_create : Option Text → Labels → World → Result Text × World
  pub lease_delete : Text → World → Result (Unit {0}) × World
  pub image_get : Text → World → Result Image × World
  pub image_list : World → Result (List Image) × World
  pub image_update : Image → List Text → World → Result Image × World
  pub image_create : Image → World → Result Image × World
  pub image_delete : Text → World → Result (Unit {0}) × World
  -- `Image.RootFS` on the store's platform, and `identity.ChainID`.
  pub root_fs : Image → World → Result (List Text) × World
  pub chain_id : List Text → Text
  pub snapshot_stat : Text → World → Result Info × World
  pub snapshot_walk : World → Result (List Info) × World
  pub snapshot_update : Info → List Text → World → Result Info × World
  pub snapshot_remove : Text → World → Result (Unit {0}) × World
  pub snapshot_view : Text → Text → List SnapshotOpt → World → Result Mounts × World
  pub snapshot_prepare : Text → Text → List SnapshotOpt → World → Result Mounts × World
  pub snapshot_mounts : Text → World → Result Mounts × World
  pub snapshot_commit : Text → Text → List SnapshotOpt → World → Result (Unit {0}) × World
  pub mount_all : Mounts → Text → World → Result (Unit {0}) × World
  pub unmount_all : Text → World → Result (Unit {0}) × World
