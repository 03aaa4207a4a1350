-- ===== src/Extractor.antt =====
-- pkg/extractor: the extraction of an image's layers into one tree.
pub mod Files
pub mod Ranges
pub mod Layer
pub mod System
pub mod Maintaining
pub mod Nodes
pub mod Confined
pub mod Contents
pub mod Split
pub mod Image
pub mod Dispatch
pub mod Reference
