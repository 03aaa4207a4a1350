-- ===== src/Commands/Steady/Running.antt =====
-- Every command keeps an invariant that the libraries keep, if it names only records of the set.
use mysnapshotter.Prelude.{
  ℕ, Bool, false, none, some, map, ◌&&◌, ◌||◌, [], ◌∷◌, if◌then◌else◌, Text, ◌==◌,
}
use mysnapshotter.Extractor.System.{M}
use mysnapshotter.Extractor.Maintaining.{
  Whatever, Maintains, pure-Maintains, fail-Maintains, lift-Maintains, bind-Maintains,
  then-Maintains, if-Maintains,
}
use mysnapshotter.Extractor.Confined.{any_ok}
use mysnapshotter.Store.Mounts.{with_mount_unpack, mount_from_scratch}
use mysnapshotter.Store.Pulling.{with_pull_unpack}
use mysnapshotter.Store.Archives.{with_import_unpack}
use mysnapshotter.Store.Options.{apply_options}
use mysnapshotter.Store.Commits.{with_img_commit_opts}
use mysnapshotter.Commands.{
  Host, World, Command, MountFlags, UmountFlags, mount_cmd, umount_cmd, list_cmd,
  list_snapshots_cmd, pull_cmd, unpack_cmd, commit_cmd, delete_cmd, import_cmd, error_beside,
  run_mount, run_umount, remove_snap, run_list, run_list_snapshots, run_pull, run_commit,
  run_import, run_unpack, run_delete, silent, nothing, table, printed, named_only, run_command,
}
use mysnapshotter.Commands.Steady.{IsSteady}
use mysnapshotter.Commands.Steady.Images.{
  list_snapshots-Maintains, get_image-Maintains, list_images-Maintains, delete_image-Maintains,
}
use mysnapshotter.Commands.Steady.Unpacking.{unpack_ref-Maintains, umount-Maintains}
use mysnapshotter.Commands.Steady.Mounting.{mount-Maintains}
use mysnapshotter.Commands.Steady.Pulling.{pull-Maintains}
use mysnapshotter.Commands.Steady.Committing.{commit-Maintains}
use mysnapshotter.Commands.Steady.Importing.{import_from_file-Maintains}

-- The image records that a command may write have names of the set. An archive may name any.
abbrev pub IsNaming : (Names Refs : Text → Type 0) → Command → Type 0
IsNaming Names Refs (pull_cmd u ref) = Refs ref
IsNaming Names Refs (commit_cmd image key) = Names image
IsNaming Names Refs (delete_cmd name) = Names name
IsNaming Names Refs (import_cmd u f) = (n : Text) → Names n
IsNaming Names Refs _ = Unit

module _ (H : Host) (Names Refs : Text → Type 0) (I : World H → Type 0)
    (S : IsSteady H Names Refs I) where
  module _ (initiated : Bool) (rounds : ℕ) where
    run_mount-Maintains :
        (f : MountFlags) (target : Text)
        → Maintains I Whatever (run_mount H initiated rounds f target)
    unfolding run_mount mount_from_scratch
    run_mount-Maintains f target =
        if-Maintains I f.from_scratch
          (then-Maintains I
            (mount-Maintains H Names Refs I S initiated none target f.snapshot_key false [])
            (pure-Maintains I tt tt))
          (bind-Maintains I Whatever (get_image-Maintains H Names Refs I S initiated f.image)
            (λ img _.
              then-Maintains I
                (mount-Maintains H Names Refs I S initiated (some img) target f.snapshot_key
                  f.read_only (if f.unpack then with_mount_unpack H.containerd ∷ [] else []))
                (pure-Maintains I tt tt)))

    run_umount-Maintains :
        (f : UmountFlags) (target : Text)
        → Maintains I Whatever (run_umount H initiated rounds f target)
    unfolding run_umount
    run_umount-Maintains f target =
        if-Maintains I (f.snapshot_key == [] && (f.remove_all || f.remove_active))
          (fail-Maintains I _)
          (umount-Maintains H Names Refs I S initiated rounds target f.snapshot_key
            (remove_snap H initiated rounds f))

    run_list-Maintains : (json : Bool) → Maintains I Whatever (run_list H initiated rounds json)
    unfolding run_list
    run_list-Maintains json =
        bind-Maintains I Whatever (list_images-Maintains H Names Refs I S initiated) (λ imgs _.
          if-Maintains I json
            (bind-Maintains I Whatever (lift-Maintains I (H.marshal_images imgs) (any_ok _))
              (λ t _. pure-Maintains I (printed t) tt))
            (pure-Maintains I (table (map (λ img. (img.name, img.target.digest)) imgs)) tt))

    run_list_snapshots-Maintains : Maintains I Whatever (run_list_snapshots H initiated rounds)
    unfolding run_list_snapshots
    run_list_snapshots-Maintains =
        bind-Maintains I Whatever (list_snapshots-Maintains H Names Refs I S initiated) (λ infos _.
          bind-Maintains I Whatever (lift-Maintains I (H.marshal_snapshots infos) (any_ok _))
            (λ t _. pure-Maintains I (printed t) tt))

    run_pull-Maintains :
        (u : Bool) (ref : Text)
        → Refs ref
        → Maintains I Whatever (run_pull H initiated rounds u ref)
    unfolding run_pull
    run_pull-Maintains u ref h =
        bind-Maintains I Whatever
          (pull-Maintains H Names Refs I S initiated rounds ref
            (if u then with_pull_unpack H.containerd H.remote ∷ [] else []) h)
          (λ q _. lift-Maintains I (error_beside q) (any_ok (error_beside q)))

    run_commit-Maintains :
        (image key : Text)
        → Names image
        → Maintains I Whatever (run_commit H initiated rounds image key)
    unfolding run_commit
    run_commit-Maintains image key h =
        then-Maintains I
          (commit-Maintains H Names Refs I S initiated key
            (with_img_commit_opts H.containerd (named_only image) ∷ []) (unfold apply_options in h))
          (pure-Maintains I tt tt)

    run_import-Maintains :
        (u : Bool) (file : Text)
        → ((n : Text) → Names n)
        → Maintains I Whatever (run_import H initiated rounds u file)
    unfolding run_import
    run_import-Maintains u file h =
        then-Maintains I
          (import_from_file-Maintains H Names Refs I S h initiated file
            (if u then with_import_unpack H.containerd H.archive ∷ [] else []))
          (pure-Maintains I tt tt)

    silent-Maintains :
        {m : M (World H) (Unit {0})}
        → Maintains I Whatever m
        → Maintains I Whatever (silent H initiated rounds m)
    silent-Maintains a = then-Maintains I a (pure-Maintains I nothing tt)

    pub run_command-Maintains :
        (c : Command)
        → IsNaming Names Refs c
        → Maintains I Whatever (run_command H initiated rounds c)
    unfolding run_command run_unpack run_delete
    run_command-Maintains (mount_cmd f target) h = silent-Maintains (run_mount-Maintains f target)
    run_command-Maintains (umount_cmd f target) h = silent-Maintains (run_umount-Maintains f target)
    run_command-Maintains (list_cmd json) h = run_list-Maintains json
    run_command-Maintains list_snapshots_cmd h = run_list_snapshots-Maintains
    run_command-Maintains (pull_cmd u ref) h = silent-Maintains (run_pull-Maintains u ref h)
    run_command-Maintains (unpack_cmd ref) h =
        silent-Maintains (unpack_ref-Maintains H Names Refs I S initiated ref [])
    run_command-Maintains (commit_cmd image key) h =
        silent-Maintains (run_commit-Maintains image key h)
    run_command-Maintains (delete_cmd name) h =
        silent-Maintains (delete_image-Maintains H Names Refs I S initiated rounds name h)
    run_command-Maintains (import_cmd u file) h = silent-Maintains (run_import-Maintains u file h)
