-- ===== src/Console.antt =====
-- The console of a domain (xen-console-srv/src/xen_console.c, struct xencons_interface of
-- include/xen/public/io/console.h): the rings that are shared with the guest, and the internal ring
-- that keeps what the guest wrote until it is displayed.
pub mod Feed
pub mod Receive
pub mod Input
pub mod Display
mod Tests
use zephyr_xenlib.Buffer.{add32, sub32}
use zephyr_xenlib.Prelude.{
  ℕ, zero, suc, ◌+◌, ◌-◌, ◌*◌, ◌/◌, ◌%◌, ◌^◌, ◌≤◌, ◌<◌, min, max, ◌≡◌, refl, sym, ap, ◌∙◌, ◌≢◌, ◌↔◌,
  ◌⊎◌, inl, inr, Bool, true, false, not, ◌&&◌, ◌||◌, Option, none, some, List, [], ◌∷◌, ◌++◌, map,
  append-nil, append_assoc, arith, ℕ_discrete, length, set, get_or, take, drop, replicate,
  length-append, length-set, get_or-set_self, get_or-set_ne, take-append-drop, length-take,
  length-drop, length-replicate, take-append, drop-append, ltb, leb, ◌==◌, if◌then◌else◌, ltb→lt,
  lt→ltb, leb→le, ==_iff, tests, Bool-cases, Option-cases, map-eq-some,
}

-- struct xencons_interface. `in_ring` has 1024 bytes and `out_ring` stands right behind it.
pub record Xencons : Type 0 where
  pub in_ring : List ℕ
  pub out_ring : List ℕ
  pub in_cons : ℕ
  pub in_prod : ℕ
  pub out_cons : ℕ
  pub out_prod : ℕ

-- struct xen_domain_console, less its threads and locks. `fed` is what the callback `on_feed_cb` got,
-- where one is set.
pub record Console : Type 0 where
  pub int_buf : List ℕ
  pub int_prod : ℕ
  pub int_cons : ℕ
  pub lost_chars : ℕ
  pub has_feed_cb : Bool
  pub fed : List ℕ

abbrev pub xen_console_buffer_sz : ℕ
xen_console_buffer_sz = 8192

abbrev pub in_size : ℕ
in_size = 1024

abbrev pub out_size : ℕ
out_size = 2048

-- size_t addition and subtraction
abbrev pub u64_mod : ℕ
u64_mod = 2 ^ 64

abbrev pub add64 : ℕ → ℕ → ℕ
add64 a b = (a + b) % u64_mod

abbrev pub sub64 : ℕ → ℕ → ℕ
sub64 a b = (a + (u64_mod - b)) % u64_mod

-- The character is stored; where the ring is full now, the oldest one is given up.
abbrev pub store_char : ℕ → Console → Console
store_char ch c =
    let prod = add64 c.int_prod 1 in
    let c' = record c {
      int_buf = set c.int_buf (c.int_prod % xen_console_buffer_sz) ch;
      int_prod = prod;
    } in
    if prod % xen_console_buffer_sz == c.int_cons % xen_console_buffer_sz
    then record c' { lost_chars = add64 c.lost_chars 1; int_cons = add64 c.int_cons 1 }
    else c'

abbrev pub call_back : ℕ → Console → Console
call_back ch c = if c.has_feed_cb then record c { fed = c.fed ++ ch ∷ [] } else c

unfoldable pub console_feed_int_ring : ℕ → Console → Console
console_feed_int_ring ch c = call_back ch (store_char ch c)

-- A store at an offset from the start of `in`: behind its 1024 bytes stands `out`.
abbrev pub store_in : ℕ → ℕ → Xencons → Xencons
store_in idx b i =
    if ltb idx in_size
    then record i { in_ring = set i.in_ring idx b }
    else record i { out_ring = set i.out_ring (idx - in_size) b }

-- while (len): the bytes, and the index that moves on. The index is reduced by the size of `out`.
unfoldable pub write_bytes : List ℕ → ℕ → Xencons → Xencons
write_bytes [] prod i = record i { in_prod = prod }
write_bytes (b ∷ bs) prod i = write_bytes bs (add32 prod 1) (store_in (prod % out_size) b i)

unfoldable pub write_to_ext_ring : List ℕ → Xencons → Xencons
write_to_ext_ring bytes i =
    let used = sub32 i.in_prod i.in_cons in
    let free_space = in_size - used in
    if ltb in_size used
    then record i { in_prod = i.in_cons }
    else write_bytes (if ltb free_space (length bytes) then take free_space bytes else bytes)
        i.in_prod i

-- while (cons != prod), with fuel: how many characters were read, and the index.
unfoldable pub read_chars : ℕ → List ℕ → ℕ → ℕ → ℕ → Console → (ℕ × ℕ) × Console
read_chars zero out cons prod recv c = ((recv, cons), c)
read_chars (suc fuel) out cons prod recv c =
    let ch = get_or out (cons % out_size) 0 in
    let rest = read_chars fuel out (add32 cons 1) prod (recv + 1) (console_feed_int_ring ch c) in
    if cons == prod then ((recv, cons), c) else rest

-- A page of characters is enough fuel.
unfoldable pub read_from_ext_ring : Xencons → Console → ℕ × Xencons × Console
read_from_ext_ring i c =
    let ((recv, cons), c') = read_chars out_size i.out_ring i.out_cons i.out_prod 0 c in
    if ltb out_size (sub32 i.out_prod i.out_cons)
    then (0, record i { out_cons = i.out_prod }, c)
    else (recv, record i { out_cons = cons }, c')
