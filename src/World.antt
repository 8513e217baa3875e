-- ===== src/World.antt =====
-- The world of internal/world: dimensions, chunks and the flat generator.
pub mod Dimension
pub mod Chunk
pub mod Index
pub mod Blocks
pub mod Biomes
pub mod Runtime
pub mod Flat
pub mod Layers
pub mod Generated
