-- ===== src/Commands.antt =====
-- The commands under cmd that work on the image store, from their flags on. Cobra, which parses the flags
-- and checks which of them go together, is not modelled; what a command logs is not either.
pub mod Logging
pub mod Extracting
pub mod Steady
pub mod Sessions
use mysnapshotter.Prelude.{
  ℕ, Bool, true, false, ◌&&◌, ◌||◌, Option, none, some, List, [], ◌∷◌, map, if◌then◌else◌, Text,
  codes, ◌==◌, Error, message, Result, ok, err,
}
use mysnapshotter.Prelude.Int.{ℤ, pos, negsuc}
use mysnapshotter.Extractor.System.{M, pure, fail, ◌>>=◌, ◌>>◌, lift, attempt}
use mysnapshotter.Store.Containerd.{Containerd, Image, Info}
use mysnapshotter.Store.Content.{MediaTypes, Json, ContentStore}
use mysnapshotter.Store.Setup.{
  OciStore, new_oci_store, Stores, init_store, run_garbage_collector, get_driver,
}
use mysnapshotter.Store.Snapshots.{list_snapshots}
use mysnapshotter.Store.Images.{get_image, list_images, delete_image, umount}
use mysnapshotter.Store.Unpacking.{Unpacker, unpack_ref}
use mysnapshotter.Store.Mounts.{Clock, MountOpt, with_mount_unpack, mount, mount_from_scratch}
use mysnapshotter.Store.Pulling.{Remote, PullOpt, with_pull_unpack, pull}
use mysnapshotter.Store.Archives.{Archive, ImportOpt, with_import_unpack}
use mysnapshotter.Store.Importing.{import_from_file}
use mysnapshotter.Store.Commits.{ImgOpts, with_img_commit_opts}
use mysnapshotter.Store.Committing.{Differ, commit}

-- The libraries that the commands reach through the store, `Close` of the snapshotter of a driver, and
-- `json.MarshalIndent` on the two lists that are printed.
pub record Host : Type 1 where
  pub containerd : Containerd
  pub stores : Stores (Containerd.World containerd)
  pub close_snapshotter :
      Text → Containerd.World containerd → Result (Unit {0}) × Containerd.World containerd
  pub clock : Clock (Containerd.World containerd)
  pub unpacker : Unpacker containerd
  pub remote : Remote (Containerd.World containerd)
  pub archive : Archive (Containerd.World containerd)
  pub contents : ContentStore (Containerd.World containerd)
  pub json : Json
  pub media_types : MediaTypes
  pub differ : Differ containerd
  pub goarch : Text
  pub goos : Text
  pub marshal_images : List Image → Result Text
  pub marshal_snapshots : List Info → Result Text

-- The flags of `mount` and of `umount`.
pub record MountFlags : Type 0 where
  pub read_only : Bool
  pub unpack : Bool
  pub snapshot_key : Text
  pub image : Text
  pub from_scratch : Bool

pub record UmountFlags : Type 0 where
  pub remove_all : Bool
  pub remove_active : Bool
  pub snapshot_key : Text

-- The commands with their flags and arguments.
pub data Command : Type 0 where
  mount_cmd : MountFlags → Text → Command
  umount_cmd : UmountFlags → Text → Command
  list_cmd : Bool → Command
  list_snapshots_cmd : Command
  pull_cmd : Bool → Text → Command
  unpack_cmd : Text → Command
  commit_cmd : Text → Text → Command
  delete_cmd : Text → Command
  import_cmd : Bool → Text → Command

-- What a command prints: the names and the digests of a table, or a text.
pub data Output : Type 0 where
  nothing : Output
  table : List (Text × Text) → Output
  printed : Text → Output

-- The error beside a value.
abbrev pub error_beside : {A : Type 0} → A × Option Error → Result (Unit {0})
error_beside (a, none) = ok tt
error_beside (a, some e) = err e

-- `ImgOpts{Ref: image}`.
abbrev pub named_only : Text → ImgOpts
named_only image = record {
  author = [];
  message = [];
  ref = image;
  cmd = none;
  entrypoint = none;
  labels = [];
}

module _ (H : Host) where
  abbrev pub World : Type 0
  World = Containerd.World H.containerd

  module _ (initiated : Bool) (rounds : ℕ) where
    -- `RunE` of `mountCmd`.
    unfoldable pub run_mount : MountFlags → Text → M World (Unit {0})
    unfolding mount_from_scratch get_image mount
    run_mount f target =
        if f.from_scratch
        then (do
          mount_from_scratch H.containerd initiated H.clock H.unpacker target f.snapshot_key
          pure tt)
        else (do
          let opts : List (MountOpt H.containerd) =
              if f.unpack then with_mount_unpack H.containerd ∷ [] else []
          img ← get_image H.containerd initiated f.image
          mount H.containerd initiated H.clock H.unpacker (some img) target f.snapshot_key
              f.read_only opts
          pure tt)

    -- The number of snapshots that `umount` removes: all of the chain is -1.
    abbrev pub remove_snap : UmountFlags → ℤ
    remove_snap f = if f.remove_all then negsuc 0 else if f.remove_active then pos 1 else pos 0

    -- `RunE` of `umountCmd`.
    unfoldable pub run_umount : UmountFlags → Text → M World (Unit {0})
    unfolding umount
    run_umount f target =
        if f.snapshot_key == [] && (f.remove_all || f.remove_active)
        then fail (message "snapshot key is required to delete snapshots")
        else umount H.containerd initiated rounds target f.snapshot_key (remove_snap f)

    -- `RunE` of `listCmd`.
    unfoldable pub run_list : Bool → M World Output
    unfolding list_images
    run_list json = do
      imgs ← list_images H.containerd initiated
      if json
          then (do t ← lift (H.marshal_images imgs); pure (printed t))
          else pure (table (map (λ img. (img.name, img.target.digest)) imgs))

    -- `RunE` of `listSnapshotsCmd`.
    unfoldable pub run_list_snapshots : M World Output
    unfolding list_snapshots
    run_list_snapshots = do
      infos ← list_snapshots H.containerd initiated
      t ← lift (H.marshal_snapshots infos)
      pure (printed t)

    -- `RunE` of `pullCmd`.
    unfoldable pub run_pull : Bool → Text → M World (Unit {0})
    unfolding pull
    run_pull unpack ref = do
      let opts : List (PullOpt H.containerd H.remote) =
          if unpack then with_pull_unpack H.containerd H.remote ∷ [] else []
      q ← pull H.containerd H.remote initiated H.unpacker rounds ref opts
      lift (error_beside q)

    -- `RunE` of `commitCmd`.
    unfoldable pub run_commit : Text → Text → M World (Unit {0})
    unfolding commit
    run_commit image key = do
      commit H.containerd H.contents H.json H.differ initiated H.media_types H.clock H.unpacker
          H.goarch H.goos key (with_img_commit_opts H.containerd (named_only image) ∷ [])
      pure tt

    -- `RunE` of `importCmd`.
    unfoldable pub run_import : Bool → Text → M World (Unit {0})
    unfolding import_from_file
    run_import unpack file = do
      let opts : List (ImportOpt H.containerd H.archive) =
          if unpack then with_import_unpack H.containerd H.archive ∷ [] else []
      import_from_file H.containerd initiated H.contents H.json H.archive H.unpacker file opts
      pure tt

    -- `RunE` of `unpackCmd`.
    unfoldable pub run_unpack : Text → M World (Unit {0})
    unfolding unpack_ref
    run_unpack ref = unpack_ref H.containerd initiated H.unpacker ref []

    -- `RunE` of `deleteCmd`.
    unfoldable pub run_delete : Text → M World (Unit {0})
    unfolding delete_image
    run_delete name = delete_image H.containerd initiated rounds name

    abbrev pub silent : M World (Unit {0}) → M World Output
    silent m = do m; pure nothing

    -- `RunE` of each command.
    unfoldable pub run_command : Command → M World Output
    unfolding run_mount run_umount run_list run_list_snapshots run_pull run_commit run_import
        run_unpack run_delete
    run_command (mount_cmd f target) = silent (run_mount f target)
    run_command (umount_cmd f target) = silent (run_umount f target)
    run_command (list_cmd json) = run_list json
    run_command list_snapshots_cmd = run_list_snapshots
    run_command (pull_cmd unpack ref) = silent (run_pull unpack ref)
    run_command (unpack_cmd ref) = silent (run_unpack ref)
    run_command (commit_cmd image key) = silent (run_commit image key)
    run_command (delete_cmd name) = silent (run_delete name)
    run_command (import_cmd unpack file) = silent (run_import unpack file)

  -- The two functions that `cobra.OnFinalize` gets, in their order, for a store that is initiated; their errors
  -- are only logged.
  unfoldable pub finalize : OciStore → M World (Unit {0})
  unfolding run_garbage_collector
  finalize c =
      if c.initiated
      then (do
        attempt (H.close_snapshotter (get_driver c))
        attempt (run_garbage_collector H.stores)
        pure tt)
      else pure tt

  -- `initCS`.
  unfoldable pub init_cs : Text → M World OciStore
  unfolding init_store
  init_cs root = init_store H.stores (new_oci_store root)

  -- What follows `initCS`: the command, and after it the finalizers, which cobra runs whatever happened. A store
  -- that could not be initiated has none.
  abbrev pub initiated_run : ℕ → Command → Result OciStore × World → Result Output × World
  initiated_run rounds cmd (err e, w) = (err e, w)
  initiated_run rounds cmd (ok c, w) =
      (do r ← attempt (run_command c.initiated rounds cmd); finalize c; lift r) w

  -- One execution of the program, with the path of the store.
  unfoldable pub execute : ℕ → Text → Command → M World Output
  unfolding init_cs run_command finalize
  execute rounds root cmd w = initiated_run rounds cmd (init_cs root w)

  -- `Execute`: the program's exit status.
  abbrev pub exit_status : Result Output → ℕ
  exit_status (ok _) = 0
  exit_status (err _) = 1
