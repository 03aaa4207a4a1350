-- ===== src/Store/Catalog.antt =====
-- The image store that the other parts see: at most one record per name. What containerd's documentation
-- says of its image store, and the same as operations on a map.
pub mod Puts
pub mod Rounds
pub mod Leased
pub mod Deletes
pub mod Kept
pub mod Unpacks
pub mod Pulls
pub mod Holding
pub mod Imports
pub mod Singles
use mysnapshotter.Prelude.{
  ℕ, Bool, true, false, ◌||◌, Option, none, some, List, [], ◌∷◌, ◌≡◌, any, if◌then◌else◌, Text,
  codes, ◌==◌, is_not_found, is_already_exists, Result, ok, err,
}
use mysnapshotter.Store.Containerd.{Labels, Containerd, Image}
use mysnapshotter.Store.Views.{Keeps}

-- The records by name.
abbrev pub Records : Type 0
Records = Text → Option Image

abbrev pub set : Image → Records → Records
set img r n = if n == img.name then some img else r n

abbrev pub unset : Text → Records → Records
unset name r n = if n == name then none else r n

-- A field that an update sets; all, if it names none.
abbrev pub sets : List Text → Text → Bool
sets [] f = true
sets (g ∷ gs) f = any (λ h. h == f) (g ∷ gs)

-- An updated record.
abbrev pub merge : List Text → Image → Image → Image
merge fields old img = record {
  name = img.name;
  target = if sets fields (codes "target") then img.target else old.target;
  labels = if sets fields (codes "labels") then img.labels else old.labels;
}

-- What a call gives and leaves, from the records before it. A call that fails changes no record.
module _ {World : Type 0} (view : World → Records) where
  abbrev pub Updated : Records → List Text → Image → Result Image × World → Type 0
  Updated r fields img (ok j, w) =
      (old : Image) × (r img.name ≡ some old) × (j ≡ merge fields old img) × (view w ≡ set j r)
  Updated r fields img (err e, w) = (view w ≡ r) × (is_not_found e ≡ true → r img.name ≡ none)

  abbrev pub Created : Records → Image → Result Image × World → Type 0
  Created r img (ok j, w) = (r img.name ≡ none) × (j ≡ img) × (view w ≡ set img r)
  Created r img (err e, w) =
      (view w ≡ r) × (is_already_exists e ≡ true → (old : Image) × (r img.name ≡ some old))

  abbrev pub Deleted : Records → Text → Result (Unit {0}) × World → Type 0
  Deleted r name (ok _, w) = view w ≡ unset name r
  Deleted r name (err e, w) = view w ≡ r

-- The image store keeps the records, and the other calls that `delete` makes leave them alone.
pub record Catalog (C : Containerd) : Type 0 where
  pub view : C.World → Records
  pub update_lem :
      (img : Image) (fields : List Text) (w : C.World)
      → Updated view (view w) fields img (C.image_update img fields w)
  pub create_lem : (img : Image) (w : C.World) → Created view (view w) img (C.image_create img w)
  pub delete_lem : (name : Text) (w : C.World) → Deleted view (view w) name (C.image_delete name w)
  pub get-Keeps : (name : Text) → Keeps view (C.image_get name)
  pub root_fs-Keeps : (img : Image) → Keeps view (C.root_fs img)
  pub stat-Keeps : (key : Text) → Keeps view (C.snapshot_stat key)
  pub remove-Keeps : (key : Text) → Keeps view (C.snapshot_remove key)
  pub create_lease-Keeps :
      (id : Option Text) (labels : Labels) → Keeps view (C.lease_create id labels)
  pub delete_lease-Keeps : (l : Text) → Keeps view (C.lease_delete l)
