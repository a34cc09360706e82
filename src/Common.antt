-- ===== src/Common.antt =====
-- xenstore-common: what the XenStore server and the guests' clients share.
pub mod Ring
pub mod Perm
pub mod Errors
pub mod Tests
