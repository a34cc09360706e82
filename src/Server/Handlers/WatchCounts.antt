-- ===== src/Server/Handlers/WatchCounts.antt =====
-- To add and to remove a watch keeps the reference counts of watches right.

use zephyr_xenlib.Prelude.{
  ℕ, ◌≡◌, refl, ◌∙◌, inl, inr, Bool, Option, none, some, List, [], ◌∷◌, ◌++◌, Bool-cases,
  Option-cases,
}
use zephyr_xenlib.Errno.{Result, ok, err}
use zephyr_xenlib.Clib.{bytes}
use zephyr_xenlib.Common.Perm.{perm_read}
use zephyr_xenlib.Store.Alloc.{k_malloc_each}
use zephyr_xenlib.Store.Tree.{key_to_entry_check_perm}
use zephyr_xenlib.Server.State.{Server, send_reply}
use zephyr_xenlib.Server.Watch.{key_to_watcher, remove_watch_entry, watch_entry_put}
use zephyr_xenlib.Server.Watch.Added.{
  key_to_watcher-linked, Balanced-append, Balanced-change, link_at-new,
}
use zephyr_xenlib.Server.Watch.Counted.{Holds, queue_pending-IsCounted}
use zephyr_xenlib.Server.Watch.Refs.{
  link_at, waiting, IsCounted, Balanced-remove, linked-held, link-change,
}
use zephyr_xenlib.Server.Handlers.Counts.{errno-IsCounted, reply-IsCounted, reply-linked}
use zephyr_xenlib.Server.Handlers.Watches.{
  find_or_add, new_watch, set_relative, first_event, finish_watch, watch_path, unwatch_found,
  xs_watch,
}

-- The counts are right, and the watch that is found or made is on the list.
abbrev Found : Result ℕ × Server → Type 0
Found (err e, s) = IsCounted s
Found (ok n, s) = IsCounted s × (link_at s.watches n ≡ 1)

find_or_add-Found :
    (path token : List ℕ) (relative : Bool) (s : Server)
    → IsCounted s
    → Found (find_or_add path token relative s)
unfolding find_or_add
find_or_add-Found path token relative s c =
    elim (Option-cases (key_to_watcher path token (some s.domid) s.watches)) [
      | inr (n, found) ↦
          rw (found, find_or_add)
            (
              Balanced-change (waiting s) (set_relative relative) s.watches n (λ w. refl)
                  (λ w. refl) c,
              link-change (set_relative relative) (λ w. refl) s.watches n n
                  ∙ key_to_watcher-linked path token (some s.domid) s.watches n found,
            )
      | inl new ↦ elim (Bool-cases (k_malloc_each 3 s.mem).0) [
        | inl got ↦
            rw (new, got, find_or_add)
              (
                Balanced-append (waiting s) s.watches (new_watch path token relative s.domid) refl
                    refl c,
                link_at-new s.watches (new_watch path token relative s.domid) refl,
              )
        | inr failed ↦ rw (new, failed, find_or_add) c
      ]
    ]

first_event-IsCounted :
    (n : ℕ) (path : List ℕ) (s : Server)
    → link_at s.watches n ≡ 1
    → IsCounted s
    → Holds IsCounted (first_event n path s)
unfolding first_event
first_event-IsCounted n path s on c =
    elim (Option-cases (key_to_entry_check_perm s.root path s.domid perm_read s.mem)) [
      | inl fault ↦ rw (fault, first_event) tt
      | inr ((none, mem'), hidden) ↦ rw (hidden, first_event) c
      | inr ((some e, mem'), seen) ↦
          rw (seen, first_event)
            (queue_pending-IsCounted n path (record s { mem = mem' })
              (linked-held (waiting s) s.watches n c on) c).0
    ]

finish_watch-IsCounted :
    (id : ℕ) (path : List ℕ) (r : Result ℕ × Server)
    → Found r
    → Holds IsCounted (finish_watch id path r)
unfolding send_reply
finish_watch-IsCounted id path (err e, s) c = errno-IsCounted id e s c
finish_watch-IsCounted id path (ok n, s) (c, on) =
    first_event-IsCounted n path (send_reply id xs_watch (bytes "OK") s)
      (reply-linked id xs_watch (bytes "OK" ++ 0 ∷ []) s n ∙ on)
      (reply-IsCounted id xs_watch (bytes "OK" ++ 0 ∷ []) s c)

pub watch_path-IsCounted :
    (id : ℕ) (path token : List ℕ) (relative : Bool) (s : Server)
    → IsCounted s
    → Holds IsCounted (watch_path id path token relative s)
watch_path-IsCounted id path token relative s c =
    finish_watch-IsCounted id path (find_or_add path token relative s)
      (find_or_add-Found path token relative s c)

pub unwatch_found-IsCounted :
    (path token : List ℕ) (s : Server)
    → IsCounted s
    → IsCounted (unwatch_found (key_to_watcher path token (some s.domid) s.watches) s)
unfolding remove_watch_entry watch_entry_put
unwatch_found-IsCounted path token s c =
    go (key_to_watcher path token (some s.domid) s.watches) refl
  where
    go :
        (o : Option ℕ)
        → key_to_watcher path token (some s.domid) s.watches ≡ o
        → IsCounted (unwatch_found o s)
    go none e = c
    go (some n) e =
        Balanced-remove (waiting s) s.watches n
          (key_to_watcher-linked path token (some s.domid) s.watches n e) c
