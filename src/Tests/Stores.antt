-- ===== src/Tests/Stores.antt =====
-- Stores in memory: image records by name, leases as a stack, and snapshots whose keys get shorter from
-- child to parent.
use mysnapshotter.Prelude.{
  ◌≡◌, refl, ap, false, Option, none, some, List, [], ◌∷◌, Text, codes, external, not_found,
  already_exists, Result, ok, err,
}
use mysnapshotter.Store.Containerd.{Labels, Image, Info, Containerd}
use mysnapshotter.Store.Catalog.{Records, set, unset, merge, Updated, Created, Catalog}
use mysnapshotter.Store.Leases.{LeaseManager}

-- The records and the leases.
abbrev pub State : Type 0
State = Records × List Text

abbrev pub updated : List Text → Image → Option Image → State → Result Image × State
updated fields img none w = (err not_found, w)
updated fields img (some old) (r, h) =
    (ok (merge fields old img), (set (merge fields old img) r, h))

abbrev pub created : Image → Option Image → State → Result Image × State
created img none (r, h) = (ok img, (set img r, h))
created img (some _) w = (err already_exists, w)

abbrev pub found : {A : Type 0} → Option A → State → Result A × State
found none w = (err not_found, w)
found (some a) w = (ok a, w)

abbrev pub parent_of : Text → Option Info
parent_of [] = none
parent_of (c ∷ key) = some (record { name = c ∷ key; parent = key; labels = [] })

abbrev pub pop : List Text → List Text
pop [] = []
pop (_ ∷ h) = h

abbrev pub stores : Containerd
stores = record {
  World = State;
  Mounts = Unit {0};
  SnapshotOpt = Labels;
  ApplyOpt = Unit {0};
  with_labels = λ l. l;
  leased_context = false;
  lease_create = λ id labels w. (ok (codes "l"), (w.0, codes "l" ∷ w.1));
  lease_delete = λ l w. (ok tt, (w.0, pop w.1));
  image_get = λ name w. found (w.0 name) w;
  image_list = λ w. (ok [], w);
  image_update = λ img fields w. updated fields img (w.0 img.name) w;
  image_create = λ img w. created img (w.0 img.name) w;
  image_delete = λ name w. (ok tt, (unset name w.0, w.1));
  root_fs = λ img w. (ok (codes "ab" ∷ []), w);
  chain_id = λ ids. codes "ab";
  snapshot_stat = λ key w. found (parent_of key) w;
  snapshot_walk = λ w. (ok [], w);
  snapshot_update = λ info fields w. (ok info, w);
  snapshot_remove = λ key w. (ok tt, w);
  snapshot_view = λ key parent labels w. (ok tt, w);
  snapshot_prepare = λ key parent labels w. (ok tt, w);
  snapshot_mounts = λ key w. (ok tt, w);
  snapshot_commit = λ name key labels w. (ok tt, w);
  mount_all = λ m target w. (err (external "mount"), w);
  unmount_all = λ target w. (ok tt, w);
}

abbrev pub records : State → Records
records w = w.0

pub found-Keeps : {A : Type 0} (o : Option A) (w : State) → records (found o w).1 ≡ records w
found-Keeps none w = refl
found-Keeps (some a) w = refl

pub updated-Updated :
    (fields : List Text) (img : Image) (o : Option Image) (w : State)
    → w.0 img.name ≡ o
    → Updated records w.0 fields img (updated fields img o w)
updated-Updated fields img none w e = (refl, λ _. e)
updated-Updated fields img (some old) w e = (old, e, refl, refl)

pub created-Created :
    (img : Image) (o : Option Image) (w : State)
    → w.0 img.name ≡ o
    → Created records w.0 img (created img o w)
created-Created img none w e = (e, refl, refl)
created-Created img (some old) w e = (refl, λ _. (old, e))

abbrev pub catalog : Catalog stores
catalog = record {
  view = records;
  update_lem = λ img fields w. updated-Updated fields img (w.0 img.name) w refl;
  create_lem = λ img w. created-Created img (w.0 img.name) w refl;
  delete_lem = λ name w. refl;
  get-Keeps = λ name w. found-Keeps (w.0 name) w;
  root_fs-Keeps = λ img w. refl;
  stat-Keeps = λ key w. found-Keeps (parent_of key) w;
  remove-Keeps = λ key w. refl;
  create_lease-Keeps = λ id labels w. refl;
  delete_lease-Keeps = λ l w. refl;
}

abbrev pub leases : LeaseManager stores
leases = record {
  held = λ w. w.1;
  create_lem = λ id labels w. refl;
  delete_lem = λ l h w e. ap pop e;
}
