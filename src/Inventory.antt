-- ===== src/Inventory.antt =====
-- The server-side inventory of a player, internal/server/mcpe_inventory.go.
pub mod Item
pub mod Store
pub mod Exec
pub mod Actions
pub mod Response
pub mod Requests
pub mod Places
pub mod Storing
pub mod Conserve
pub mod Invariant
pub mod Transfers
pub mod Kept
pub mod Amounts
pub mod Batches
pub mod Duplication
pub mod Client
pub mod Answers
