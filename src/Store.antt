-- ===== src/Store.antt =====
-- pkg/ocistore: the image store on containerd's libraries.
pub mod Registry
pub mod Containerd
pub mod Options
pub mod Setup
pub mod Views
pub mod Snapshots
pub mod Images
pub mod Content
pub mod Unpacking
pub mod Leases
pub mod Mounts
pub mod Storing
pub mod Pulling
pub mod Archives
pub mod Importing
pub mod Commits
pub mod Committing
pub mod Catalog
