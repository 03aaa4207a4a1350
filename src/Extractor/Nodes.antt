-- ===== src/Extractor/Nodes.antt =====
-- Structural nodes and metadata of pkg/extractor/chunked_extraction.go.
use mysnapshotter.Prelude.{
  ℕ, ◌-◌, ◌%◌, Bool, true, false, Option, none, some, List, [], ◌∷◌, ◌++◌, ltb, eqb, if◌then◌else◌,
  Text, wrap, Result, ok, err,
}
use Prim.Native.Nat.{bit_and, bit_or}
use mysnapshotter.Prelude.Int.{ℤ, pos, negsuc}
use mysnapshotter.Prelude.Sorting.{Sorter}
use mysnapshotter.Paths.{join, dir, is_abs}
use mysnapshotter.Chunked.Data.{EntryType, FileMetadata}
use mysnapshotter.Extractor.Layer.{LayerCtx, ensure_safe_path}
use mysnapshotter.Extractor.System.{
  Syscall, Reply, Os, M, pure, ◌>>=◌, ◌>>◌, lift, named, attempt, for_each, issue, remove_if_exists,
}

-- A conversion to uint32 keeps the low 32 bits.
abbrev pub uint32 : ℤ → ℕ
uint32 (pos n) = n % 4_294_967_296
uint32 (negsuc n) = 4_294_967_295 - n % 4_294_967_296

-- `<` of Go strings.
unfoldable pub text_less : Text → Text → Bool
text_less [] [] = false
text_less [] (_ ∷ _) = true
text_less (_ ∷ _) [] = false
text_less (a ∷ s) (b ∷ t) =
    let rest = text_less s t in if ltb a b then true else if eqb a b then rest else false

abbrev pub name_less : FileMetadata → FileMetadata → Bool
name_less a b = text_less a.name b.name

-- `os.ModePerm | os.ModeSetuid | os.ModeSetgid | os.ModeSticky`.
abbrev pub mode_mask : ℕ
mode_mask = 13_631_999

abbrev is_type : EntryType → EntryType → Bool
is_type EntryType.symlink EntryType.symlink = true
is_type EntryType.dir EntryType.dir = true
is_type EntryType.block EntryType.block = true
is_type _ _ = false

-- `resolveSymlink`.
unfoldable pub resolve_symlink : Text → Text → Text → Text
resolve_symlink base_dir symlink linkname =
    if is_abs linkname then join base_dir linkname else join (dir (join base_dir symlink)) linkname

module _ (O : Os) (decode_base64 : Text → Result (List ℕ)) where
  open O use {World}

  -- The access and modification times that are set: each stands in for the other.
  abbrev pub times : Option ℤ → Option ℤ → Option (ℤ × ℤ)
  times none none = none
  times (some a) none = some (a, a)
  times none (some m) = some (m, m)
  times (some a) (some m) = some (a, m)

  unfoldable pub set_times : Text → Option (ℤ × ℤ) → M World (Unit {0})
  set_times path none = pure tt
  set_times path (some (a, m)) = do
    named "failed to apply timestamps" (issue O (Syscall.utimes_nofollow path a m))
    pure tt

  unfoldable pub set_xattr : Text → Text × Text → M World (Unit {0})
  set_xattr path (name, value) = do
    xattr ← named "decoding extended attributes" (lift (decode_base64 value))
    named "failed to set xattr" (issue O (Syscall.lsetxattr path name xattr))
    pure tt

  -- `applyMetadata`.
  unfoldable pub apply_metadata : Text → FileMetadata → M World (Unit {0})
  unfolding set_times set_xattr for_each
  apply_metadata path node = do
    named "failed to apply Lchown" (issue O (Syscall.lchown path node.uid node.gid))
    (if is_type node.type EntryType.symlink
        then pure Reply.done
        else named "failed to apply chmod" (issue O (Syscall.chmod path (uint32 node.mode % 4096))))
    set_times path (times node.access_time node.mod_time)
    for_each node.xattrs (set_xattr path)

  -- What the loop has gathered: the directories, and the context with the deferred links.
  abbrev pub Gathered : Type 0
  Gathered = List FileMetadata × LayerCtx

  module _ (cwd : Result Text) (target : Text) where
    unfoldable pub create_reg : Text → FileMetadata → M World (Unit {0})
    create_reg path n = do
      named "creating file" (issue O (Syscall.open_write path (uint32 n.mode)))
      named "closing file" (issue O (Syscall.close path))
      pure tt

    unfoldable pub create_dir : Text → M World (Unit {0})
    create_dir path = do
      found ← attempt (issue O (Syscall.stat path))
      named "creating directory" (elim found [
        | ok _ ↦ issue O (Syscall.chmod path 448)
        | err e ↦
            if O.is_not_exist e
            then issue O (Syscall.mkdir_all path 448)
            else issue O (Syscall.chmod path 448)
      ])
      pure tt

    unfoldable pub create_symlink : Text → FileMetadata → M World (Unit {0})
    unfolding resolve_symlink ensure_safe_path remove_if_exists
    create_symlink path n = do
      named "sanitizing symlink"
          (lift (ensure_safe_path cwd target (resolve_symlink target path n.linkname)))
      remove_if_exists O path
      named "creating symlink" (issue O (Syscall.symlink n.linkname path))
      pure tt

    unfoldable pub create_device : Text → FileMetadata → ℕ → M World (Unit {0})
    unfolding remove_if_exists
    create_device path n perm_bits = do
      remove_if_exists O path
      let kind = if is_type n.type EntryType.block then 24576 else 8192
      named "creating char device" (
          issue O
            (Syscall.mknod path (bit_or perm_bits kind) (uint32 n.devmajor) (uint32 n.devminor)))
      pure tt

    unfoldable pub create_fifo : Text → ℕ → M World (Unit {0})
    unfolding remove_if_exists
    create_fifo path perm_bits = do
      remove_if_exists O path
      named "creating the fifo file" (issue O (Syscall.mkfifo path (bit_or perm_bits 4096)))
      pure tt

    -- The context with a link to be made after all layers.
    unfoldable pub collect_link : LayerCtx → FileMetadata → Result LayerCtx
    unfolding ensure_safe_path
    collect_link lc n =
        let old = join target n.linkname in
        elim (ensure_safe_path cwd target old) [
          | err e ↦ err (wrap "illegal hardlink target" e)
          | ok _ ↦ ok (record lc {
            hardlinks = lc.hardlinks ++ (record { old = old; new = join target n.name } ∷ []);
          })
        ]

    unfoldable pub with_metadata :
        Text → FileMetadata → Gathered → M World (Unit {0}) → M World Gathered
    unfolding apply_metadata
    with_metadata path n g made = do
      made
      named "failed applying GID, UID or Xattrs" (apply_metadata path n)
      pure g

    -- The switch on the entry's type.
    unfoldable pub create_node : Text → ℕ → FileMetadata → Gathered → EntryType → M World Gathered
    unfolding create_reg create_dir create_symlink create_device create_fifo collect_link
        with_metadata
    create_node path perm n g EntryType.reg = with_metadata path n g (create_reg path n)
    create_node path perm n (dirs, lc) EntryType.dir = do
      create_dir path
      pure (dirs ++ (n ∷ []), lc)
    create_node path perm n g EntryType.symlink = with_metadata path n g (create_symlink path n)
    create_node path perm n (dirs, lc) EntryType.link = do
      lc' ← lift (collect_link lc n)
      pure (dirs, lc')
    create_node path perm n g EntryType.char = with_metadata path n g (create_device path n perm)
    create_node path perm n g EntryType.block = with_metadata path n g (create_device path n perm)
    create_node path perm n g EntryType.fifo = with_metadata path n g (create_fifo path perm)
    create_node path perm n g EntryType.chunk = pure g
    create_node path perm n g (EntryType.other _) = with_metadata path n g (pure tt)

    unfoldable pub create_nodes : List FileMetadata → Gathered → M World Gathered
    unfolding create_node
    create_nodes [] g = pure g
    create_nodes (n ∷ ns) g = do
      let path = join target n.name
      named "creating parent directories" (issue O (Syscall.mkdir_all (dir path) 448))
      g' ← create_node path (bit_and (uint32 n.mode) mode_mask) n g n.type
      create_nodes ns g'

    -- `createStructuralNodes`.
    unfoldable pub create_structural_nodes :
        Sorter FileMetadata → List FileMetadata → LayerCtx → M World Gathered
    unfolding create_nodes
    create_structural_nodes sorter structure lc =
        create_nodes (sorter.sort name_less structure) ([], lc)

    unfoldable pub apply_dir : FileMetadata → M World (Unit {0})
    unfolding apply_metadata
    apply_dir d =
        if is_type d.type EntryType.dir
        then named "setting metadata" (apply_metadata (join target d.name) d)
        else pure tt

    -- `applyDirPerm`: the directories by descending names.
    unfoldable pub apply_dir_perm : Sorter FileMetadata → List FileMetadata → M World (Unit {0})
    unfolding apply_dir for_each
    apply_dir_perm sorter dirs = for_each (sorter.sort (λ a b. name_less b a) dirs) apply_dir
