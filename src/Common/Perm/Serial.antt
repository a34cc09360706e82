-- ===== src/Common/Perm/Serial.antt =====
-- The wire form of a permission list (serialize_perms of xenstore-srv/src/xenstore_srv.c), which the
-- parser of xenstore-common reads back.
use zephyr_xenlib.Prelude.{
  ℕ, zero, suc, ◌*◌, ◌%◌, ◌^◌, ◌≤◌, ◌<◌, ◌≡◌, refl, ap, ◌∙◌, true, false, Option, none, some, List,
  [], ◌∷◌, ◌++◌, map, arith, length, length-append,
}
use zephyr_xenlib.Errno.{ok}
use zephyr_xenlib.Clib.{strings, strings-append}
use zephyr_xenlib.Clib.Decimal.{
  strtoul, print_unsigned, strtoul-print, print_unsigned-IsText, length-print_unsigned,
  print_unsigned-ne_nil,
}
use zephyr_xenlib.Common.Perm.{
  PermEntry, perm_to_wire, perm_from_wire, domid_of, domid_mask, parse_entry, parse_strings,
  perm_parse_wire, no_room, less_room,
}

-- "%c%u" of one entry, less its NUL
abbrev pub wire_entry : PermEntry → List ℕ
wire_entry p = perm_to_wire p.perm ∷ print_unsigned p.domid

-- The buffer that serialize_perms fills, where no snprintf is cut.
unfoldable pub serialize_perms : List PermEntry → List ℕ
serialize_perms [] = []
serialize_perms (p ∷ ps) = wire_entry p ++ 0 ∷ serialize_perms ps

-- a permission as the wire can carry it
abbrev pub normal : PermEntry → PermEntry
normal p = record { domid = p.domid; perm = p.perm % 4 }

abbrev pub AreSmall : List PermEntry → Type 0
AreSmall [] = Unit
AreSmall (p ∷ ps) = (p.domid ≤ domid_mask) × AreSmall ps

perm_to_wire-IsText : (n : ℕ) → 0 < perm_to_wire n
unfolding perm_to_wire
perm_to_wire-IsText n = ground arith

perm_from_wire-to : (n : ℕ) → perm_from_wire (perm_to_wire n) ≡ ok (n % 4)
unfolding perm_to_wire perm_from_wire
perm_from_wire-to n = ground arith

domid_of-small :
    (d : ℕ)
    → d ≤ domid_mask
    → domid_of (record { value = d; converted = true; rest = []; out_of_range = false }) ≡ ok d
unfolding domid_of
domid_of-small d h = ground arith

domid_of-print : (d : ℕ) → d ≤ domid_mask → domid_of (strtoul (print_unsigned d)) ≡ ok d
domid_of-print d h = ap domid_of (strtoul-print d (omega arith)) ∙ domid_of-small d h

parse_entry-cons :
    (c : ℕ) (s : List ℕ) (perm domid : ℕ)
    → 0 < length s
    → perm_from_wire c ≡ ok perm
    → domid_of (strtoul s) ≡ ok domid
    → parse_entry (c ∷ s) ≡ ok (record { domid = domid; perm = perm })
unfolding parse_entry
parse_entry-cons c [] perm domid h e f = absurd (omega arith)
parse_entry-cons c (x ∷ s) perm domid h e f = rw (e, f)

parse_entry-wire :
    (p : PermEntry) → p.domid ≤ domid_mask → parse_entry (wire_entry p) ≡ ok (normal p)
parse_entry-wire p h =
    parse_entry-cons (perm_to_wire p.perm) (print_unsigned p.domid) (p.perm % 4) p.domid
      (print_unsigned-ne_nil p.domid) (perm_from_wire-to p.perm) (domid_of-print p.domid h)

abbrev pub Fits : Option ℕ → ℕ → Type 0
Fits none n = Unit
Fits (some m) n = n ≤ m

Fits-less :
    (room : Option ℕ) (n : ℕ) → Fits room (suc n) → (no_room room ≡ false) × Fits (less_room room) n
Fits-less none n f = (refl, tt)
Fits-less (some zero) n f = absurd (omega arith)
Fits-less (some (suc m)) n f = (refl, omega arith)

-- For domain ids of at most 0x7fff, what serialize_perms writes xenstore_perm_parse_wire accepts,
-- counting or filling an array that is long enough, and it gives the same domains with the same read
-- and write bits, in the same order.
pub parse-serialize :
    (ps : List PermEntry) (room : Option ℕ)
    → AreSmall ps
    → Fits room (length ps)
    → perm_parse_wire (serialize_perms ps) room ≡ ok (map normal ps)
unfolding perm_parse_wire parse_strings serialize_perms strings
parse-serialize [] room h r = refl
parse-serialize (p ∷ ps) room h r =
    let (free, fits) = Fits-less room (length ps) r in
    ap (λ x. parse_strings x room)
      (strings-append (wire_entry p) (serialize_perms ps)
        (perm_to_wire-IsText p.perm, print_unsigned-IsText p.domid))
    ∙ ground (
      arith,
      free,
      parse_entry-wire p h.0,
      print_unsigned-ne_nil p.domid,
      parse-serialize ps (less_room room) h.1 fits,
    )

abbrev pub AreDomids : List PermEntry → Type 0
AreDomids [] = Unit
AreDomids (p ∷ ps) = (p.domid < 2 ^ 16) × AreDomids ps

-- 12 bytes for each entry hold what serialize_perms writes, for domain ids of 16 bits.
pub length-serialize_perms :
    (ps : List PermEntry) → AreDomids ps → length (serialize_perms ps) ≤ 12 * length ps
unfolding serialize_perms
length-serialize_perms [] h = omega arith
length-serialize_perms (p ∷ ps) h = omega (
  arith,
  length-append (wire_entry p) (0 ∷ serialize_perms ps),
  length-print_unsigned p.domid 5 (omega arith) (omega (arith, h.0)),
  length-serialize_perms ps h.1,
)
