-- ===== src/Store.antt =====
-- The XenStore tree of xenstore-srv (xenstore-srv/src/xenstore_srv.c): nodes, permissions, paths, and
-- the operations under `xsel_mutex`. `Option` is a run of C code, and `none` is undefined behaviour,
-- such as a read through NULL.
pub mod Alloc
pub mod Tree
pub mod Path
pub mod Write
pub mod Remove
pub mod WellFormed
pub mod Tests
