-- ===== src/Chunked.antt =====
-- pkg/chunked/tocutil.go: the table of contents of a zstd:chunked layer.
pub mod Data
pub mod Footer
pub mod Toc
