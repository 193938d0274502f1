-- ===== src/Server.antt =====
-- internal/server/ironhawk: the server's side of subscriptions.
pub mod WatchManager
