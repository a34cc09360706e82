-- ===== src/Server/Keeps/Settings.antt =====
-- XS_SET_PERMS, XS_WATCH and XS_UNWATCH keep what the small operations keep.

use zephyr_xenlib.Server.Keeps.Replies.{with_path-Keeps}
use zephyr_xenlib.Server.Watch.{key_to_watcher}
use zephyr_xenlib.Server.Handlers.{xs_set_perms}
use zephyr_xenlib.Store.Tree.{key_to_entry_check_perm, Entry, is_abs_path}
use zephyr_xenlib.Server.Watch.Counted.{Holds}
use zephyr_xenlib.Store.Write.{set_perms_by_array}
use zephyr_xenlib.Clib.{bytes, cut, tokens}
use zephyr_xenlib.Errno.{e2big, einval, err, Result, ok}
use zephyr_xenlib.Store.Path.{max_path_len, construct_path}
use zephyr_xenlib.Common.Perm.{perm_none, PermEntry}
use zephyr_xenlib.Store.Alloc.{Mem}
use zephyr_xenlib.Server.State.{send_reply_sz, send_errno, send_reply, Server}
use zephyr_xenlib.Server.Handlers.SetPerms.{
  set_found, answer, deserialize_perms, store_new, perms_at, store_list, handle_set_perms,
  set_perms_of, set_perms_by_strings,
}
use zephyr_xenlib.Server.Handlers.Watches.{
  watch_token, token_of, unwatch_found, path_len, xs_unwatch, unwatch_path, with_watch,
  handle_unwatch, handle_watch,
}
use zephyr_xenlib.Prelude.{
  ℕ, ◌≡◌, refl, inl, inr, Bool, not, Option, none, some, List, [], ◌∷◌, ◌++◌, length, ltb, ◌==◌,
  Bool-cases, Option-cases,
}
use zephyr_xenlib.Server.Keeps.{Keeps}

module _ (P : Server → Type 0) (k : Keeps P) where
  set_perms_by_strings-Keeps :
      (path strings : List ℕ) (s : Server) → P s → P (set_perms_by_strings path strings s).1
  unfolding set_perms_by_strings
  set_perms_by_strings-Keeps path strings s p = parsed (deserialize_perms strings s.mem)
    where
      stored : (o : Option (List PermEntry) × Mem) → P (store_list path s o).1
      stored (none, mem') = k.memory s mem' p
      stored (some qs, mem') =
          k.memory (record s { root = perms_at qs (tokens path) s.root }) mem'
            (k.tree s (perms_at qs (tokens path) s.root) p)

      parsed : (o : Option (List PermEntry) × Mem) → P (store_new path s o).1
      parsed (none, mem') = k.memory s mem' p
      parsed (some ps, mem') = stored (set_perms_by_array ps mem')

  set_perms_of-Keeps :
      (id : ℕ) (path rest : List ℕ) (s : Server) → P s → Holds P (set_perms_of id path rest s)
  unfolding set_perms_of send_reply
  set_perms_of-Keeps id path rest s p =
      go (key_to_entry_check_perm s.root path s.domid perm_none s.mem)
    where
      answered : (r : Result (Unit {0}) × Server) → P r.1 → P (answer id r)
      answered (err x, s') h = k.refused id x s' h
      answered (ok u, s') h = k.replied id xs_set_perms (bytes "OK" ++ 0 ∷ []) s' h

      go : (o : Option (Option Entry × Mem)) → Holds P (set_found id path rest s o)
      go none = tt
      go (some (none, mem')) = tt
      go (some (some e, mem')) =
          answered (set_perms_by_strings path rest (record s { mem = mem' }))
            (set_perms_by_strings-Keeps path rest (record s { mem = mem' }) (k.memory s mem' p))

  pub set_perms-Keeps :
      (id : ℕ) (payload : List ℕ) (s : Server) → P s → Holds P (handle_set_perms id payload s)
  unfolding handle_set_perms
  set_perms-Keeps id payload s p = elim (Option-cases (cut payload)) [
    | inl behind ↦ rw (behind, handle_set_perms) (k.refused id einval s p)
    | inr ((text, rest), here) ↦ elim (Bool-cases (length rest == 0)) [
      | inl empty ↦ rw (here, handle_set_perms, empty) (k.refused id einval s p)
      | inr more ↦
          rw (here, handle_set_perms, more)
            (with_path-Keeps P k id payload (set_perms_of id) s (set_perms_of-Keeps id) p)
    ]
  ]

  with_watch-Keeps :
      (id : ℕ) (payload : List ℕ) (next : List ℕ → Option (List ℕ) → Bool → Server → Option Server)
      (s : Server)
      → ((text path : List ℕ) (token : Option (List ℕ)) (m m' : Mem) (s1 : Server)
          → construct_path text s1.domid m ≡ (ok path, m')
          → P s1
          → Holds P (next path token (not (is_abs_path text)) s1))
      → P s
      → Holds P (with_watch id payload next s)
  unfolding with_watch
  with_watch-Keeps id payload next s n p = elim (Option-cases (cut payload)) [
    | inl behind ↦ rw (behind, with_watch) tt
    | inr ((text, rest), here) ↦
        rw (here, with_watch) (go text (construct_path text s.domid s.mem) refl (token_of rest))
  ]
    where
      go :
          (text : List ℕ) (o : Result (List ℕ) × Mem)
          → construct_path text s.domid s.mem ≡ o
          → (t : Option (List ℕ))
          → Holds P (elim o.0 [
            | err e ↦ some (send_errno id e (record s { mem = o.1 }))
            | ok path ↦ next path t (not (is_abs_path text)) (record s { mem = o.1 })
          ])
      go text (err e, mem') made t = k.refused id e (record s { mem = mem' }) (k.memory s mem' p)
      go text (ok path, mem') made t =
          n text path t s.mem mem' (record s { mem = mem' }) made (k.memory s mem' p)

  pub watch-Keeps :
      (id : ℕ) (payload : List ℕ) (s : Server) → P s → Holds P (handle_watch id payload s)
  unfolding handle_watch
  watch-Keeps id payload s p = elim (Bool-cases (ltb (max_path_len payload) (path_len payload))) [
    | inl long ↦ rw (long, handle_watch) (k.refused id e2big s p)
    | inr short ↦
        rw (short, handle_watch) (with_watch-Keeps id payload (watch_token id) s token_watched p)
  ]
    where
      token_watched :
          (text path : List ℕ) (token : Option (List ℕ)) (m m' : Mem) (s1 : Server)
          → construct_path text s1.domid m ≡ (ok path, m')
          → P s1
          → Holds P (watch_token id path token (not (is_abs_path text)) s1)
      token_watched text path none m m' s1 made p1 = tt
      token_watched text path (some token) m m' s1 made p1 =
          k.watched id text path token m m' s1 made p1

  pub unwatch-Keeps :
      (id : ℕ) (payload : List ℕ) (s : Server) → P s → Holds P (handle_unwatch id payload s)
  unfolding handle_unwatch unwatch_path send_reply
  unwatch-Keeps id payload s p = with_watch-Keeps id payload (unwatch_path id) s token_unwatched p
    where
      unmatched :
          (s1 : Server) (found : Option ℕ)
          → P s1
          → Holds P
              (elim found [ some n ↦ none | none ↦ some (send_reply_sz id xs_unwatch (0 ∷ []) s1) ])
      unmatched s1 (some n) p1 = tt
      unmatched s1 none p1 = k.replied id xs_unwatch (0 ∷ []) s1 p1

      token_unwatched :
          (text path : List ℕ) (token : Option (List ℕ)) (m m' : Mem) (s1 : Server)
          → construct_path text s1.domid m ≡ (ok path, m')
          → P s1
          → Holds P (unwatch_path id path token (not (is_abs_path text)) s1)
      token_unwatched text path (some token) m m' s1 made p1 =
          k.replied id xs_unwatch (0 ∷ [])
            (unwatch_found (key_to_watcher path token (some s1.domid) s1.watches) s1)
            (k.unwatched path token s1 p1)
      token_unwatched text path none m m' s1 made p1 =
          unmatched s1 (key_to_watcher path [] (some s1.domid) s1.watches) p1
