-- ===== src/Tests.antt =====
-- Concrete runs of the theorems.
mod Items
mod Chunks
mod Clients
mod Commands
mod Connections
mod Packs
mod Loop
mod Sending
mod Settings
mod Worlds
mod Bodies
mod Chats
mod Routes
