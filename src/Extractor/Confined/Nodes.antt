-- ===== src/Extractor/Confined/Nodes.antt =====
-- The paths of the calls that make structural nodes.
use mysnapshotter.Prelude.{
  inl, ℕ, true, List, [], ◌∷◌, ◌++◌, All, All-append, ◌≡◌, refl, Text, wrap, if◌then◌else◌, Result,
  ok, err,
}
use mathlib.Core.Bool.{Bool-set}
use mysnapshotter.Paths.{is_abs, join, dir}
use mysnapshotter.Paths.Below.{IsBelow, join-IsBelow, dir-join-IsBelow, join-is_abs}
use mysnapshotter.Prelude.Sorting.{Sorter, All-Perm}
use mysnapshotter.Extractor.Layer.{LayerCtx, ensure_safe_path}
use mysnapshotter.Extractor.Layer.Safety.{ensure_safe_path_iff}
use mysnapshotter.Chunked.Data.{EntryType, FileMetadata}
use mysnapshotter.Extractor.System.{Syscall, Reply, Os, M, pure, ◌>>◌, named, issue}
use mysnapshotter.Extractor.Maintaining.{
  IfOk, Whatever, Maintains, pure-Maintains, lift-Maintains, then-Maintains, bind-Maintains,
  named-Maintains, settled-Maintains, if-Maintains, for_each-Maintains,
}
use mysnapshotter.Extractor.Nodes.{
  create_reg, create_dir, create_symlink, create_device, create_fifo, collect_link, with_metadata,
  create_node, create_nodes, create_structural_nodes, apply_dir, apply_dir_perm,
}
use mysnapshotter.Extractor.Confined.{
  IsNamed, IsInside, Respects, any_ok, issue-Maintains, told-Maintains,
}
use mysnapshotter.Extractor.Confined.Metadata.{apply_metadata-Maintains, remove_if_exists-Maintains}

module _ (O : Os) (decode_base64 : Text → Result (List ℕ)) (root : Text) (I : O.World → Type 0)
    (H : Respects O root I) where
  open O use {World}

  -- What follows the look at a directory.
  abbrev looked : Text → Result Reply → M World Reply
  looked path found = elim found [
    | ok _ ↦ issue O (Syscall.chmod path 448)
    | err e ↦
        if O.is_not_exist e
        then issue O (Syscall.mkdir_all path 448)
        else issue O (Syscall.chmod path 448)
  ]

  -- The names of the directories do not climb, and the deferred links lie in the destination.
  abbrev pub IsGathered : List FileMetadata × LayerCtx → Type 0
  IsGathered g = All IsNamed g.0 × All (IsInside root) g.1.hardlinks

  module _ (cwd : Result Text) (rooted : is_abs root ≡ true) where
    create_reg-Maintains :
        (path : Text) (n : FileMetadata)
        → IsBelow root path
        → Maintains I Whatever (create_reg O decode_base64 cwd root path n)
    unfolding create_reg
    create_reg-Maintains path n b = then-Maintains I (told-Maintains O root I H _ _ b) (
        then-Maintains I (told-Maintains O root I H _ (Syscall.close path) tt)
          (pure-Maintains I tt tt))

    create_dir-Maintains :
        (path : Text)
        → IsBelow root path
        → Maintains I Whatever (create_dir O decode_base64 cwd root path)
    unfolding create_dir
    create_dir-Maintains path b =
        let chmod : Maintains I Whatever (issue O (Syscall.chmod path 448)) =
          issue-Maintains O root I H _ b in
        let mkdir : Maintains I Whatever (issue O (Syscall.mkdir_all path 448)) =
          issue-Maintains O root I H _ (inl b) in
        settled-Maintains I Whatever
          (λ found. named "creating directory" (looked path found) >> pure tt)
          (issue-Maintains O root I H (Syscall.stat path) tt)
          (λ _ _. then-Maintains I (named-Maintains I _ chmod) (pure-Maintains I tt tt))
          (λ e.
            then-Maintains I (named-Maintains I _ (if-Maintains I (O.is_not_exist e) mkdir chmod))
              (pure-Maintains I tt tt))

    create_symlink-Maintains :
        (path : Text) (n : FileMetadata)
        → IsBelow root path
        → Maintains I Whatever (create_symlink O decode_base64 cwd root path n)
    unfolding create_symlink
    create_symlink-Maintains path n b =
        then-Maintains I (named-Maintains I _ (lift-Maintains I _ (any_ok _))) (
          then-Maintains I (remove_if_exists-Maintains O decode_base64 root I H path b)
            (then-Maintains I (told-Maintains O root I H _ _ b) (pure-Maintains I tt tt)))

    create_device-Maintains :
        (path : Text) (n : FileMetadata) (perm : ℕ)
        → IsBelow root path
        → Maintains I Whatever (create_device O decode_base64 cwd root path n perm)
    unfolding create_device
    create_device-Maintains path n perm b =
        then-Maintains I (remove_if_exists-Maintains O decode_base64 root I H path b)
          (then-Maintains I (told-Maintains O root I H _ _ b) (pure-Maintains I tt tt))

    create_fifo-Maintains :
        (path : Text) (perm : ℕ)
        → IsBelow root path
        → Maintains I Whatever (create_fifo O decode_base64 cwd root path perm)
    unfolding create_fifo
    create_fifo-Maintains path perm b =
        then-Maintains I (remove_if_exists-Maintains O decode_base64 root I H path b)
          (then-Maintains I (told-Maintains O root I H _ _ b) (pure-Maintains I tt tt))

    with_metadata-Maintains :
        (path : Text) (n : FileMetadata) (g : List FileMetadata × LayerCtx)
        (made : M World (Unit {0}))
        → IsBelow root path
        → IsGathered g
        → Maintains I Whatever made
        → Maintains I IsGathered (with_metadata O decode_base64 cwd root path n g made)
    unfolding with_metadata
    with_metadata-Maintains path n g made b q m = then-Maintains I m (
        then-Maintains I
          (named-Maintains I _ (apply_metadata-Maintains O decode_base64 root I H path n b))
          (pure-Maintains I g q))

    linked :
        (lc : LayerCtx) (n : FileMetadata) (r : Result (Unit {0}))
        → ensure_safe_path cwd root (join root n.linkname) ≡ r
        → IsNamed n
        → All (IsInside root) lc.hardlinks
        → IfOk
            (λ (l : LayerCtx). All (IsInside root) l.hardlinks)
            (elim r as (λ _. Result LayerCtx) [
              | err e ↦ err (wrap "illegal hardlink target" e)
              | ok _ ↦ ok (record lc {
                hardlinks =
                    lc.hardlinks
                    ++ (record { old = join root n.linkname; new = join root n.name } ∷ []);
              })
            ])
    linked lc n (err e) s c a = tt
    linked lc n (ok _) s c a = All-append (IsInside root) lc.hardlinks _ a (
      (
        (ensure_safe_path_iff cwd root _ rooted (join-is_abs root n.linkname rooted)).0 s,
        join-IsBelow root n.name rooted c,
      ),
      tt,
    )

    collect_link-Maintains :
        (lc : LayerCtx) (n : FileMetadata)
        → IsNamed n
        → All (IsInside root) lc.hardlinks
        → IfOk
            (λ (l : LayerCtx). All (IsInside root) l.hardlinks)
            (collect_link O decode_base64 cwd root lc n)
    unfolding collect_link
    collect_link-Maintains lc n c a = linked lc n (ensure_safe_path cwd root _) refl c a

    create_node-Maintains :
        (path : Text) (perm : ℕ) (n : FileMetadata) (g : List FileMetadata × LayerCtx)
        (t : EntryType)
        → IsBelow root path
        → IsNamed n
        → IsGathered g
        → Maintains I IsGathered (create_node O decode_base64 cwd root path perm n g t)
    unfolding create_node
    create_node-Maintains path perm n g EntryType.reg b c q =
        with_metadata-Maintains path n g _ b q (create_reg-Maintains path n b)
    create_node-Maintains path perm n (dirs, lc) EntryType.dir b c q =
        then-Maintains I (create_dir-Maintains path b)
          (pure-Maintains I (dirs ++ (n ∷ []), lc) (All-append IsNamed dirs _ q.0 (c, tt), q.1))
    create_node-Maintains path perm n g EntryType.symlink b c q =
        with_metadata-Maintains path n g _ b q (create_symlink-Maintains path n b)
    create_node-Maintains path perm n (dirs, lc) EntryType.link b c q =
        bind-Maintains I (λ (l : LayerCtx). All (IsInside root) l.hardlinks)
          (lift-Maintains I _ (collect_link-Maintains lc n c q.1))
          (λ lc' a. pure-Maintains I (dirs, lc') (q.0, a))
    create_node-Maintains path perm n g EntryType.char b c q =
        with_metadata-Maintains path n g _ b q (create_device-Maintains path n perm b)
    create_node-Maintains path perm n g EntryType.block b c q =
        with_metadata-Maintains path n g _ b q (create_device-Maintains path n perm b)
    create_node-Maintains path perm n g EntryType.fifo b c q =
        with_metadata-Maintains path n g _ b q (create_fifo-Maintains path perm b)
    create_node-Maintains path perm n g EntryType.chunk b c q = pure-Maintains I g q
    create_node-Maintains path perm n g (EntryType.other _) b c q =
        with_metadata-Maintains path n g _ b q (pure-Maintains I tt tt)

    create_nodes-Maintains :
        (ns : List FileMetadata) (g : List FileMetadata × LayerCtx)
        → All IsNamed ns
        → IsGathered g
        → Maintains I IsGathered (create_nodes O decode_base64 cwd root ns g)
    unfolding create_nodes
    create_nodes-Maintains [] g c q = pure-Maintains I g q
    create_nodes-Maintains (n ∷ ns) g c q =
        then-Maintains I
          (told-Maintains O root I H _ (Syscall.mkdir_all (dir (join root n.name)) 448)
            (dir-join-IsBelow root n.name rooted c.0))
          (bind-Maintains I IsGathered
            (create_node-Maintains (join root n.name) _ n g n.type
              (join-IsBelow root n.name rooted c.0) c.0 q)
            (λ g' q'. create_nodes-Maintains ns g' c.1 q'))

    -- The structural nodes are made, and what is gathered keeps to the destination.
    pub create_structural_nodes-Maintains :
        (sorter : Sorter FileMetadata) (ns : List FileMetadata) (lc : LayerCtx)
        → All IsNamed ns
        → All (IsInside root) lc.hardlinks
        → Maintains I IsGathered (create_structural_nodes O decode_base64 cwd root sorter ns lc)
    unfolding create_structural_nodes
    create_structural_nodes-Maintains sorter ns lc c a =
        create_nodes-Maintains _ ([], lc)
          (All-Perm IsNamed (λ n. Bool-set _ _) (Sorter.sort-perm sorter _ ns) c) (tt, a)

    apply_dir-Maintains :
        (d : FileMetadata) → IsNamed d → Maintains I Whatever (apply_dir O decode_base64 cwd root d)
    unfolding apply_dir
    apply_dir-Maintains d c =
        if-Maintains I _
          (named-Maintains I _ (
            apply_metadata-Maintains O decode_base64 root I H _ d
              (join-IsBelow root d.name rooted c)))
          (pure-Maintains I tt tt)

    pub apply_dir_perm-Maintains :
        (sorter : Sorter FileMetadata) (dirs : List FileMetadata)
        → All IsNamed dirs
        → Maintains I Whatever (apply_dir_perm O decode_base64 cwd root sorter dirs)
    unfolding apply_dir_perm
    apply_dir_perm-Maintains sorter dirs c =
        for_each-Maintains I IsNamed _
          (All-Perm IsNamed (λ n. Bool-set _ _) (Sorter.sort-perm sorter _ dirs) c)
          apply_dir-Maintains
