-- ===== src/Buffer.antt =====
-- Circular byte buffers in shared memory: the copies that `memcpy` makes (xenstore-common, vch,
-- xen-console-srv), with indices that run freely over 32 bits and are reduced at each access.
pub mod Window
pub mod Wrapped
use zephyr_xenlib.Prelude.{
  ℕ, zero, suc, ◌+◌, ◌-◌, ◌*◌, ◌/◌, ◌%◌, ◌^◌, ◌≤◌, ◌<◌, min, max, ◌≡◌, refl, sym, ap, ◌∙◌, ◌≢◌, ◌↔◌,
  ◌⊎◌, inl, inr, Bool, true, false, not, ◌&&◌, ◌||◌, Option, none, some, List, [], ◌∷◌, ◌++◌, map,
  append-nil, append_assoc, arith, ℕ_discrete, length, set, get_or, take, drop, replicate,
  length-append, length-set, get_or-set_self, get_or-set_ne, take-append-drop, length-take,
  length-drop, length-replicate, take-append, drop-append, ltb, leb, ◌==◌, if◌then◌else◌, ltb→lt,
  lt→ltb, leb→le, ==_iff, tests, Bool-cases, Option-cases, map-eq-some,
}

abbrev pub u32_mod : ℕ
u32_mod = 2 ^ 32

-- uint32_t addition and subtraction
abbrev pub add32 : ℕ → ℕ → ℕ
add32 a b = (a + b) % u32_mod

abbrev pub sub32 : ℕ → ℕ → ℕ
sub32 a b = (a + (u32_mod - b)) % u32_mod

-- memcpy(buf + off, data, n) for a list of n bytes
unfoldable pub put_bytes : List ℕ → ℕ → List ℕ → List ℕ
put_bytes buf off [] = buf
put_bytes buf off (x ∷ xs) = put_bytes (set buf off x) (off + 1) xs

-- memcpy(data, buf + off, n)
unfoldable pub get_bytes : List ℕ → ℕ → ℕ → List ℕ
get_bytes buf off zero = []
get_bytes buf off (suc n) = get_or buf off 0 ∷ get_bytes buf (off + 1) n
