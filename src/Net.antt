-- ===== src/Net.antt =====
-- The async API of net.c: the stream socket and the timer wheel, both JavaScript over `pol`.
pub mod Socket
pub mod Timers
