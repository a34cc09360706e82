-- ===== src/Server.antt =====
-- The XenStore server (xenstore-srv/src/xenstore_srv.c): the connection of one domain and the state
-- that all domains share.
pub mod State
pub mod Watch
pub mod Handlers
pub mod Input
pub mod Keeps
pub mod Api
pub mod Local
pub mod Traverse
pub mod Tests
