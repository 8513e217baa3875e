-- ===== src/Server.antt =====
-- The server's loop and its queue of tasks (internal/server/server.go), and the routes of
-- the clients' packets (internal/server/mcpe_router.go).
pub mod Tasks
pub mod Fifo
pub mod Exited
pub mod Routes
pub mod Sound
