-- ===== src/ResourcePack.antt =====
-- Resource packs and their download (internal/resourcepack/resourcepack.go).
pub mod Pack
pub mod Queue
pub mod Chunks
pub mod Download
pub mod Fetch
pub mod Whole
pub mod Complete
