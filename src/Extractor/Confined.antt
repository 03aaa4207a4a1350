-- ===== src/Extractor/Confined.antt =====
-- Which system calls of an extraction are confined to its destination, by the text of their paths.
pub mod Metadata
pub mod Nodes
pub mod Contents
pub mod Blobs
pub mod Splitting
pub mod Layers
pub mod Images
use mysnapshotter.Prelude.{◌⊎◌, List, [], ◌∷◌, All, String, Text, Result, ok, err}
use mysnapshotter.Paths.Below.{IsClimbless, IsBelow}
use mysnapshotter.Chunked.Data.{FileMetadata}
use mysnapshotter.Extractor.Files.{TocFile}
use mysnapshotter.Extractor.Layer.{Hardlink}
use mysnapshotter.Extractor.System.{Syscall, Reply, Os, named, issue}
use mysnapshotter.Extractor.Maintaining.{IfOk, Whatever, Maintains, named-Maintains}

-- What a call changes is named by a path in the directory. This looks at the text of the path: links that
-- the system follows on the way are not looked at. Directories may also be asked for above it; a symbolic
-- link counts as the path where it is made, whatever it points to.
abbrev pub IsConfined : Text → Syscall → Type 0
IsConfined root (Syscall.mkdir_all p m) = IsBelow root p ⊎ IsBelow p root
IsConfined root (Syscall.stat p) = Unit
IsConfined root (Syscall.chmod p m) = IsBelow root p
IsConfined root (Syscall.lchown p u g) = IsBelow root p
IsConfined root (Syscall.utimes_nofollow p a m) = IsBelow root p
IsConfined root (Syscall.lsetxattr p k v) = IsBelow root p
IsConfined root (Syscall.open_write p m) = IsBelow root p
IsConfined root (Syscall.open_read p) = Unit
IsConfined root (Syscall.write p b) = IsBelow root p
IsConfined root (Syscall.close p) = Unit
IsConfined root (Syscall.remove p) = IsBelow root p
IsConfined root (Syscall.symlink l p) = IsBelow root p
IsConfined root (Syscall.link old new) = IsBelow root old × IsBelow root new
IsConfined root (Syscall.mknod p m a b) = IsBelow root p
IsConfined root (Syscall.mkfifo p m) = IsBelow root p
IsConfined root (Syscall.clone target source) = IsBelow root target
IsConfined root (Syscall.seek_start p) = Unit
IsConfined root (Syscall.copy target source) = IsBelow root target
IsConfined root (Syscall.sync p) = IsBelow root p

-- The name of an entry, or of a file's entry, does not climb.
abbrev pub IsNamed : FileMetadata → Type 0
IsNamed n = IsClimbless n.name

abbrev pub IsNamedFile : TocFile → Type 0
IsNamedFile f = IsNamed f.entry

-- Both ends of a deferred link lie in the directory.
abbrev pub IsInside : Text → Hardlink → Type 0
IsInside root l = IsBelow root l.old × IsBelow root l.new

pub any_ok : {A : Type 0} (r : Result A) → IfOk Whatever r
any_ok (ok a) = tt
any_ok (err e) = tt

pub all-Whatever : {A : Type 0} (xs : List A) → All Whatever xs
all-Whatever [] = tt
all-Whatever (x ∷ xs) = (tt, all-Whatever xs)

module _ (O : Os) (root : Text) (I : O.World → Type 0) where
  -- Calls confined to the directory keep the invariant.
  abbrev pub Respects : Type 0
  Respects = (s : Syscall) → IsConfined root s → (w : O.World) → I w → I (O.call s w).1

  pub issue-Maintains :
      Respects → (s : Syscall) → IsConfined root s → Maintains I Whatever (issue O s)
  issue-Maintains H s c = record { run = λ w i. (H s c w i, any_ok (O.call s w).0) }

  -- A call whose error is wrapped.
  pub told-Maintains :
      Respects
      → (t : String) (s : Syscall) → IsConfined root s
      → Maintains I Whatever (named t (issue O s))
  told-Maintains H t s c = named-Maintains I t (issue-Maintains H s c)
