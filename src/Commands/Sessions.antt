-- ===== src/Commands/Sessions.antt =====
-- Sequences of executions of the program, and the invariants of the stores that they keep.
pub mod Records
pub mod Names
pub mod Pulled
use mysnapshotter.Prelude.{
  ℕ, Bool, true, false, Option, none, some, map, ◌&&◌, ◌||◌, List, [], ◌∷◌, All, if◌then◌else◌,
  by_if, Text, ◌==◌, message, Result, ok, err,
}
use mysnapshotter.Extractor.System.{M, pure, fail, ◌>>=◌, ◌>>◌, lift, named, attempt}
use mysnapshotter.Extractor.Maintaining.{
  IfOk, Whatever, Ends, Maintains, pure-Maintains, fail-Maintains, lift-Maintains, bind-Maintains,
  then-Maintains, attempt-Maintains, named-Maintains, if-Maintains,
}
use mysnapshotter.Extractor.Confined.{any_ok}
use mysnapshotter.Store.Containerd.{driver}
use mysnapshotter.Store.Setup.{
  OciStore, new_oci_store, init_store, run_garbage_collector, get_driver,
}
use mysnapshotter.Store.Mounts.{with_mount_unpack, mount_from_scratch}
use mysnapshotter.Store.Pulling.{with_pull_unpack}
use mysnapshotter.Store.Archives.{with_import_unpack}
use mysnapshotter.Store.Options.{apply_options}
use mysnapshotter.Store.Commits.{with_img_commit_opts}
use mysnapshotter.Commands.{
  Host, World, Command, Output, MountFlags, UmountFlags, mount_cmd, umount_cmd, list_cmd,
  list_snapshots_cmd, pull_cmd, unpack_cmd, commit_cmd, delete_cmd, import_cmd, error_beside,
  run_mount, run_umount, remove_snap, run_list, run_list_snapshots, run_pull, run_commit,
  run_import, silent, nothing, table, printed, named_only, run_command, finalize, init_cs,
  initiated_run, execute,
}
use mysnapshotter.Commands.Steady.{IsSteady}
use mysnapshotter.Commands.Steady.Images.{
  list_snapshots-Maintains, get_image-Maintains, list_images-Maintains, delete_image-Maintains,
  tried-Maintains,
}
use mysnapshotter.Commands.Steady.Unpacking.{unpack_ref-Maintains, umount-Maintains}
use mysnapshotter.Commands.Steady.Mounting.{mount-Maintains}
use mysnapshotter.Commands.Steady.Pulling.{pull-Maintains}
use mysnapshotter.Commands.Steady.Committing.{commit-Maintains}
use mysnapshotter.Commands.Steady.Importing.{import_from_file-Maintains}
use mysnapshotter.Commands.Steady.Running.{IsNaming, run_command-Maintains}

-- The world after executions of the program, one after the other, on one store.
unfoldable pub session : (H : Host) → ℕ → Text → List Command → World H → World H
unfolding execute
session H rounds root [] w = w
session H rounds root (c ∷ cs) w = session H rounds root cs (execute H rounds root c w).1

module _ (H : Host) (Names Refs : Text → Type 0) (I : World H → Type 0)
    (S : IsSteady H Names Refs I) where
  finalize-Maintains : (c : OciStore) → Maintains I Whatever (finalize H c)
  unfolding finalize run_garbage_collector
  finalize-Maintains c =
      if-Maintains I c.initiated
        (then-Maintains I
          (tried-Maintains H Names Refs I S true (H.close_snapshotter (get_driver c))
            (S.close_snapshotter (get_driver c)))
          (then-Maintains I
            (tried-Maintains H Names Refs I S true
              (named "failed to run garbage collection" H.stores.garbage_collect)
              (named-Maintains I _ S.garbage_collect))
            (pure-Maintains I tt tt)))
        (pure-Maintains I tt tt)

  init_cs-Maintains : (root : Text) → Maintains I Whatever (init_cs H root)
  unfolding init_cs init_store
  init_cs-Maintains root =
      let c : OciStore = new_oci_store root in
      then-Maintains I
        (if-Maintains I (c.driver == driver) (S.new_snapshotter _) (fail-Maintains I _))
        (then-Maintains I (S.open_bolt _) (
          then-Maintains I (S.new_content_store _)
            (then-Maintains I (S.init_db _) (pure-Maintains I (record c { initiated = true }) tt))))

  ran :
      (rounds : ℕ) (cmd : Command) (x : Result OciStore × World H)
      → IsNaming Names Refs cmd
      → I x.1
      → I (initiated_run H rounds cmd x).1
  ran rounds cmd (err e, w) h i = i
  ran rounds cmd (ok c, w) h i =
      let m : Maintains I Whatever
          (do r ← attempt (run_command H c.initiated rounds cmd); finalize H c; lift r) =
        bind-Maintains I (IfOk Whatever) {f = λ r. finalize H c >> lift r}
          (attempt-Maintains I (run_command-Maintains H Names Refs I S c.initiated rounds cmd h))
          (λ r q. then-Maintains I (finalize-Maintains c) (lift-Maintains I r (any_ok r))) in
      (m.run w i).0

  execute_kept :
      (rounds : ℕ) (root : Text) (c : Command) (w : World H)
      → IsNaming Names Refs c
      → I w
      → I (execute H rounds root c w).1
  unfolding execute
  execute_kept rounds root c w h i =
      ran rounds c (init_cs H root w) h ((init_cs-Maintains root).run w i).0

  -- Whatever commands are run one after the other, in any order and on any arguments, and whether they
  -- succeed or fail, an invariant of the stores is kept that the libraries keep, if the records that
  -- the commands may write have names for which a write keeps it.
  pub session_kept :
      (rounds : ℕ) (root : Text) (cs : List Command) (w : World H)
      → All (IsNaming Names Refs) cs
      → I w
      → I (session H rounds root cs w)
  unfolding session
  session_kept rounds root [] w h i = i
  session_kept rounds root (c ∷ cs) w h i =
      session_kept rounds root cs (execute H rounds root c w).1 h.1
        (execute_kept rounds root c w h.0 i)
