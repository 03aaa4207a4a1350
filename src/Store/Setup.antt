-- ===== src/Store/Setup.antt =====
-- `Init` and its siblings of pkg/ocistore/ociStore.go. The opening of the stores is a parameter.
use mysnapshotter.Prelude.{Bool, true, if◌then◌else◌, Text, codes, ◌==◌, [], message, Result}
use mysnapshotter.Paths.{join}
use mysnapshotter.Extractor.System.{M, pure, fail, ◌>>◌, named}
use mysnapshotter.Store.Containerd.{driver}

-- The fields of `OCIStore` that its own code reads; the context is set once it is initiated.
pub record OciStore : Type 0 where
  pub root : Text
  pub driver : Text
  pub namespace : Text
  pub initiated : Bool

-- `NewOCIStore`.
abbrev pub new_oci_store : Text → OciStore
new_oci_store root = record {
  root = root;
  driver = driver;
  namespace = codes "elemental-system";
  initiated = Bool.false;
}

-- `overlay.NewSnapshotter`, `bolt.Open`, `local.NewStore`, `metadata.DB.Init` with the namespace of its
-- context, and `GarbageCollect`.
pub record Stores (World : Type 0) : Type 0 where
  pub new_snapshotter : Text → World → Result (Unit {0}) × World
  pub open_bolt : Text → World → Result (Unit {0}) × World
  pub new_content_store : Text → World → Result (Unit {0}) × World
  pub init_db : Text → World → Result (Unit {0}) × World
  pub garbage_collect : World → Result (Unit {0}) × World

module _ {World : Type 0} (D : Stores World) where
  -- `Init`.
  unfoldable pub init_store : OciStore → M World OciStore
  init_store c = do
    (if c.driver == driver
        then D.new_snapshotter (join c.root (codes "snapshots"))
        else fail (message "unsupported containerd driver"))
    D.open_bolt (join c.root (codes "metadata.db"))
    D.new_content_store (join c.root (codes "content"))
    D.init_db (codes "testing")
    pure (record c { initiated = true })

  -- `RunGarbageCollector`.
  unfoldable pub run_garbage_collector : M World (Unit {0})
  run_garbage_collector = named "failed to run garbage collection" D.garbage_collect

-- `GetDriver`.
abbrev pub get_driver : OciStore → Text
get_driver c = if c.initiated then c.driver else []
