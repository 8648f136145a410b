-- ===== src/Net.antt =====
-- Sockets: how the programs set them up, and what the echo servers and clients do with them.
pub mod Lookup
pub mod Address
pub mod Setup
pub mod Echo
pub mod Client
pub mod Sigio
pub mod Tcp
