-- ===== src/Poll.antt =====
-- The poll servers of Beej/ch07.
pub mod Table
pub mod Server2
pub mod Server1
pub mod Main
