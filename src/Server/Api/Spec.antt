-- ===== src/Server/Api/Spec.antt =====
-- What the server-side writes and reads promise: the tree is a map from paths to values.
use zephyr_xenlib.Store.Write.Path.{went, do_write-reads}
use zephyr_xenlib.Server.Api.Kept.{notify_watchers-root}
use zephyr_xenlib.Server.Watch.Counted.{Holds}
use zephyr_xenlib.Server.Handlers.Change.{lock, notify_watchers}
use zephyr_xenlib.Store.Tree.{
  key_to_entry, xenstore_abs_path_max, Entry, check_perms, key_to_entry_check_perm,
  xenstore_local_domain_id,
}
use zephyr_xenlib.Store.Write.Above.{write_walk-updated, updated, value_at}
use zephyr_xenlib.Store.Alloc.{k_malloc, Mem}
use zephyr_xenlib.Errno.{err, Result, ok}
use zephyr_xenlib.Clib.{tokens}
use zephyr_xenlib.Server.State.{Server}
use zephyr_xenlib.Store.Write.{Walk, do_write}
use zephyr_xenlib.Common.Perm.{perm_read, PermEntry}
use zephyr_xenlib.Server.Api.{then_notify, xss_read, do_write_own, write_with}
use mathlib.Core.Option
use zephyr_xenlib.Prelude.{
  ℕ, ◌≤◌, ◌≡◌, refl, sym, ap, ◌∙◌, inl, inr, false, Option, none, some, List, [], ◌∷◌, length, take,
  if◌then◌else◌, Bool-cases,
}

-- A write that is reported as done, taken apart.
pub record Done (perms : List PermEntry) (path v : List ℕ) (s s' : Server) : Type 0 where
  pub mem' : Mem
  pub wrote :
      do_write (some v) xenstore_local_domain_id perms path (ok tt) s.root s.mem
      ≡ some (ok tt, s'.root, mem')

-- A write that succeeded got its lock.
got_lock :
    (v : List ℕ) (perms : List PermEntry) (path : List ℕ) (r : Result (Unit {0}))
    (root root' : Entry) (mem mem' : Mem)
    → do_write (some v) xenstore_local_domain_id perms path r root mem ≡ some (ok tt, root', mem')
    → do_write (some v) xenstore_local_domain_id perms path (ok tt) root mem
      ≡ some (ok tt, root', mem')
unfolding do_write
got_lock v perms path (ok u) root root' mem mem' h = h
got_lock v perms path (err x) root root' mem mem' h = elim (Bool-cases (k_malloc mem).0) [
  | inl got ↦ cc (rw (got, do_write) at h)
  | inr failed ↦ cc (rw (failed, do_write) at h)
]

abbrev done_at : Server → Option (Result (Unit {0}) × Server)
done_at s = some (ok tt, s)

-- The notification keeps the tree.
notified_root :
    (path : List ℕ) (s s' : Server)
    → Option.map (λ (s2 : Server). (ok tt, s2)) (notify_watchers path s) ≡ done_at s'
    → s'.root ≡ s.root
notified_root path s s' h = go (notify_watchers path s) (notify_watchers-root path s) h
  where
    go :
        (o : Option Server)
        → Holds (λ (s2 : Server). s2.root ≡ s.root) o
        → Option.map (λ (s2 : Server). (ok tt, s2)) o ≡ done_at s'
        → s'.root ≡ s.root
    go none k e = cc
    go (some s2) k e = let same : s2 ≡ s' = cc in sym (ap (λ (x : Server). x.root) same) ∙ k

pub write_with-Done :
    (perms : List PermEntry) (path v : List ℕ) (s s' : Server)
    → write_with perms (some path) (some v) s ≡ some (ok tt, s')
    → Done perms path v s s'
unfolding write_with do_write_own
write_with-Done perms path v s s' h = go (if (k_malloc s.mem).0 then lock s else (ok tt, s)) h
  where
    walked :
        (r : Result (Unit {0})) (s1 : Server) (o : Option Walk)
        → do_write (some v) xenstore_local_domain_id perms path r s.root s.mem ≡ o
        → then_notify path (Option.map (λ (w : Walk). (w.0, record s1 { root = w.1; mem = w.2 })) o)
          ≡ some (ok tt, s')
        → Done perms path v s s'
    walked r s1 none e k = cc
    walked r s1 (some (err x, root', mem')) e k = cc
    walked r s1 (some (ok u, root', mem')) e k =
        let same : s'.root ≡ root' =
          notified_root path (record s1 { root = root'; mem = mem' }) s' k in
        record { mem' = mem'; wrote = rw same (got_lock v perms path r s.root root' s.mem mem' e) }

    go :
        (x : Result (Unit {0}) × Server)
        → then_notify path (
            Option.map
              (λ (w : Walk). (w.0, record x.1 { root = w.1; mem = w.2 }))
              (do_write (some v) xenstore_local_domain_id perms path x.0 s.root s.mem))
          ≡ some (ok tt, s')
        → Done perms path v s s'
    go x k =
        walked x.0 x.1 (do_write (some v) xenstore_local_domain_id perms path x.0 s.root s.mem) refl
          k

-- A server-side write of a value along a path with at least one component, with any permissions for
-- new nodes, that is reported as done: the tree as a map from paths to values is updated at the path.
-- That path has the value, the nodes above it are made where they are missing and keep their values,
-- and every other node keeps its value, also after the watches are notified.
pub write_with-updated :
    (perms : List PermEntry) (path v t : List ℕ) (ts q : List (List ℕ)) (s s' : Server)
    → tokens path ≡ t ∷ ts
    → write_with perms (some path) (some v) s ≡ some (ok tt, s')
    → value_at s'.root q ≡ updated (t ∷ ts) v (value_at s.root) q
write_with-updated perms path v t ts q s s' has h =
    let d : Done perms path v s s' = write_with-Done perms path v s s' h in
    write_walk-updated v xenstore_local_domain_id perms (t ∷ ts) q false s.root s'.root
      (k_malloc s.mem).1 d.mem'
      (went (some v) xenstore_local_domain_id perms path t ts s.root s'.root s.mem d.mem' has
        d.wrote)

-- The server's own domain may read every node.
pub own_reads :
    (root : Entry) (path : List ℕ) (mem : Mem)
    → key_to_entry_check_perm root path xenstore_local_domain_id perm_read mem
      ≡ some (key_to_entry root path mem)
unfolding key_to_entry_check_perm check_perms
own_reads root path mem = go (key_to_entry root path mem).0 refl
  where
    go :
        (o : Option Entry)
        → (key_to_entry root path mem).0 ≡ o
        → key_to_entry_check_perm root path xenstore_local_domain_id perm_read mem
          ≡ some (key_to_entry root path mem)
    go none e = rw (e, key_to_entry_check_perm) refl
    go (some n) e = rw (e, key_to_entry_check_perm) refl

abbrev was_read : ℕ → Server → Option (List ℕ) → Option (Result (List ℕ) × Server)
was_read len s o = some (ok (elim o [ none ↦ [] | some v ↦ take len v ]), s)

-- A server-side write along a path with at least one component, of at most XENSTORE_ABS_PATH_MAX
-- bytes, that is reported as done, and then xss_read of the path while memory lasts: it succeeds and
-- copies the first bytes of the value, as many as the buffer holds.
pub xss_read-write_with :
    (perms : List PermEntry) (path v t : List ℕ) (ts : List (List ℕ)) (len : ℕ) (s s' : Server)
    → tokens path ≡ t ∷ ts
    → length path ≤ xenstore_abs_path_max
    → write_with perms (some path) (some v) s ≡ some (ok tt, s')
    → s'.mem ≡ []
    → (s2 : Server) × (xss_read path len s' ≡ some (ok (take len v), s2))
unfolding xss_read
xss_read-write_with perms path v t ts len s s' has short h plenty =
    let d : Done perms path v s s' = write_with-Done perms path v s s' h in
    let (n, there, holds) =
      do_write-reads (some v) xenstore_local_domain_id perms path t ts s.root s'.root s.mem d.mem'
        has d.wrote v refl short in
    let found : key_to_entry_check_perm s'.root path xenstore_local_domain_id perm_read s'.mem
        ≡ some (some n, []) =
      own_reads s'.root path s'.mem
      ∙ ap (λ m. some (key_to_entry s'.root path m)) plenty
      ∙ ap some there in
    (
      record s' { mem = [] },
      rw (found, xss_read) (ap (λ o. was_read len (record s' { mem = [] }) o) holds),
    )
