-- ===== src/Movement.antt =====
-- The bodies of the players: what moves, and what the others are told of it
-- (internal/server/mcpe_player_sync.go).
pub mod Metadata
pub mod Flags
pub mod Input
pub mod Body
pub mod Handlers
pub mod Still
pub mod Finite
pub mod Told
pub mod View
pub mod Seen
