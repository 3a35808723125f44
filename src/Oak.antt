-- ===== src/Oak.antt =====
-- The web server's routes: oak/include/oak.
pub mod Muxer
pub mod Climb
mod Examples
