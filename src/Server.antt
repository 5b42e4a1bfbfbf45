-- ===== src/Server.antt =====
-- src/server.c: the callbacks of the server.
pub mod Wire
pub mod Feed
pub mod Branches
pub mod Cookie
pub mod Pages
pub mod Protocol
pub mod Users
pub mod Sql
pub mod Session
