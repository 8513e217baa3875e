-- ===== src/Publisher.antt =====
-- The publisher of chunks (internal/server/chunk_publisher.go).
pub mod Palette
pub mod Packing
pub mod Storage
pub mod Layers
pub mod Entries
pub mod Positions
pub mod Initial
pub mod Unpacking
pub mod ReadBack
