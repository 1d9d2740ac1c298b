-- ===== src/Server.antt =====
-- The web server's threads and cache, of webserver/server_thread.c.
pub mod Ring
pub mod Cache
pub mod Service
pub mod Lru
mod Tests
