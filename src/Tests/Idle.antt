-- ===== src/Tests/Idle.antt =====
-- Stores of containerd that refuse every call.
use mysnapshotter.Prelude.{true, [], external, Result, err}
use mysnapshotter.Store.Containerd.{Labels, Containerd}

abbrev refused : {W A : Type 0} → W → Result A × W
refused w = (err (external "not here"), w)

abbrev pub idle : Type 0 → Containerd
idle W = record {
  World = W;
  Mounts = Unit {0};
  SnapshotOpt = Labels;
  ApplyOpt = Unit {0};
  with_labels = λ l. l;
  leased_context = true;
  lease_create = λ id labels w. refused w;
  lease_delete = λ l w. refused w;
  image_get = λ name w. refused w;
  image_list = λ w. refused w;
  image_update = λ img fields w. refused w;
  image_create = λ img w. refused w;
  image_delete = λ name w. refused w;
  root_fs = λ img w. refused w;
  chain_id = λ ids. [];
  snapshot_stat = λ key w. refused w;
  snapshot_walk = λ w. refused w;
  snapshot_update = λ info fields w. refused w;
  snapshot_remove = λ key w. refused w;
  snapshot_view = λ key parent labels w. refused w;
  snapshot_prepare = λ key parent labels w. refused w;
  snapshot_mounts = λ key w. refused w;
  snapshot_commit = λ name key labels w. refused w;
  mount_all = λ m target w. refused w;
  unmount_all = λ target w. refused w;
}
