-- ===== src/Lib.antt =====
-- Zephyr xenlib: the toolstack of a Xen control domain on Zephyr. The program's core is the XenStore
-- server (xenstore-srv), a tree of nodes that guests read, write and watch through one shared page
-- each; the functions that it shares with clients stand in xenstore-common.
--
-- The parts and the files:
--   Common/Ring    xenstore-common/src/xenstore_common.c (xenstore_ring_write, xenstore_ring_read),
--                  xenstore-common/include/xenstore_common.h (the offsets): a record for the shared
--                  page, each call as a function of it. Common/Ring/Queue is its view as two queues.
--   Common/Perm    the same file (xenstore_perm_*), and serialize_perms of
--                  xenstore-srv/src/xenstore_srv.c in Common/Perm/Serial.
--   Common/Errors  xsd_errors of include/xen/public/io/xs_wire.h, send_errno, xenstore_get_error.
--   Store/Tree     xenstore-srv/src/xenstore_srv.c: struct xs_entry, key_to_entry, check_perms.
--   Store/Path     xenstore_path_validate, construct_path, xenstore_path_contains.
--   Store/Write    xss_do_write_deadline, set_perms_by_array, inherit_perms.
--   Store/Remove   free_node, remove_ref_entries.
--   Server/State   struct xenstore, the replies (send_reply_sz and its callers' helpers) and the
--                  output half of xenstore_evt_thrd.
--   Server/Watch   struct watch_entry and its reference count, key_to_watcher, the queueing of events
--                  (queue_watch_notifications_xsel_locked), and in Server/Watch/Events fire_watcher,
--                  process_pending_watch_events and cleanup_domain_watches.
--   Server/Handlers  handle_directory, handle_read, handle_get_perms and the other handlers that only
--                  answer; Server/Handlers/Change has _handle_write, handle_rm, notify_watchers and
--                  xss_do_rm_deadline; Server/Handlers/SetPerms has handle_set_perms,
--                  Server/Handlers/Watches handle_watch and handle_unwatch.
--   Server/Api     xss_write and its variants, xss_read, xss_set_perm and xss_rm.
--   Server/Local   xs_read_timeout, xs_write_timeout and the like, on the server's own tree.
--   Server/Traverse  xss_list_traverse.
--   Server/Input   message_handle_list, process_message, handle_input, and a turn of the loop of
--                  xenstore_evt_thrd.
--   Server/Keeps   an interface: what a property of the state has to be kept by for every handler and
--                  a turn of the loop to keep it. Server/Keeps/Counted and Server/Keeps/Ready fill it,
--                  and Server/Keeps/Reached has the states that the thread and its client reach.
--   Console        xen-console-srv/src/xen_console.c: the rings that a guest's console shares with the
--                  server, and the internal ring. Console/Feed is its view as a screen that keeps the
--                  last characters, Console/Receive what the guest writes, Console/Input what the
--                  operator types, Console/Display what console_display_thrd prints.
--   Vch            vch/src/vch.c: vch_read and vch_write with their notifications; Vch/Flow is what each
--                  does to a ring as a queue, Vch/Pair the two ends of a channel together.
-- Buffer, Clib and Errno hold what these parts share: 32-bit indices and copies in a circular buffer,
-- the functions of the C library on strings, and the error codes. Prelude holds lists and tests on
-- native numbers.
--
-- How the parts interact: a request names a node by a path; construct_path makes it absolute,
-- key_to_entry and check_perms find the node, do_write or free_node change the tree, and send_reply_sz
-- puts the reply behind what waits in `out_list`, from where handle_output copies it to the ring.
--
-- A change of the tree queues an event for each watch whose path is concerned, and the event thread
-- sends those of its own domain.
--
-- State: the tree is a value of `Entry`; its root is the static root_xenstore. A C string is the list
-- of its bytes without the NUL. A function that may read through NULL returns an `Option`, and `none`
-- is that undefined behaviour. An error code is a value of `Errno`, and `Result` is what the source
-- returns as 0, a size or a negative code.
--
-- A pointer to a watch is its place in the list of all watches ever made; one whose reference count is
-- 0 is freed, and to read it is undefined behaviour.
--
-- Parameters: k_malloc is a list of answers, one for each call to come, and past its end every call
-- succeeds, so that `[]` is memory that lasts. A lock is the value that xss_mutex_lock_deadline
-- returned. `stack_word` is what an unset field of a reply's header holds.
--
-- The console's struct xencons_interface has `in` and right behind it `out`; a store past the end of
-- `in` is one into `out`. The console's callback is what it was called with.
--
-- The calls of notify_evtchn are a list of answers too, and a wait on a channel's semaphore ends with
-- a function that says what the peer did to the shared page.
--
-- Fuel: the output loop takes a bound on the number of its rounds. Each round writes at least a byte,
-- so the number of bytes that wait is enough. Decimal printing takes 20 rounds, the digits of any
-- 64-bit number. The console reads a page of 2048 bytes at most, and prints at most 8192 pieces.
--
-- Not modelled: barriers and the peer's steps inside one call; threads and locks beyond their answers;
-- what invalidate_client tears down (the state only keeps that it was called, and with which code);
-- domain ids of more than six digits in a path, which are cut; a watch whose token has no NUL, from its
-- making to its first event;
-- the server's own watches of xs_watch_timeout; the start and the end of a connection and of a
-- console; the opening and closing of a virtual channel; domain management and the shell; libfdt and
-- the Xen headers, which are other projects' code.
pub mod Prelude
pub mod Buffer
pub mod Errno
pub mod Clib
pub mod Common
pub mod Store
pub mod Server
pub mod Console
pub mod Vch
