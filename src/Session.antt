-- ===== src/Session.antt =====
-- The sessions of the server: the clients' state machine and the table of players.
pub mod State
pub mod Players
pub mod Packets
pub mod Handlers
pub mod Writes
pub mod Gaps
pub mod Table
pub mod Keeps
pub mod Invariant
pub mod Leaving
pub mod Entering
pub mod Ghosts
