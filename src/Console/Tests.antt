-- ===== src/Console/Tests.antt =====
-- Runs of a console at concrete inputs.
use zephyr_xenlib.Clib.{IsText}
use zephyr_xenlib.Buffer.{put_bytes}
use zephyr_xenlib.Console.Receive.{read_from_ext_ring_lem, Shown, guest_output}
use zephyr_xenlib.Console.Input.{write_to_ext_ring_astray, write_to_ext_ring_lem, typed}
use zephyr_xenlib.Console.Feed.{backlog, IsIntact}
use zephyr_xenlib.Buffer.Window.{window}
use zephyr_xenlib.Console.Display.{display_text_lem, display}
use zephyr_xenlib.Console.{Xencons, write_to_ext_ring, read_from_ext_ring, Console}
use zephyr_xenlib.Prelude.{ℕ, ◌≡◌, true, [], ◌∷◌, ◌++◌, arith, replicate, length-replicate}

-- The guest wrote "AA", whose indices wrap around 32 bits; the operator typed nothing yet.
abbrev intf : Xencons
intf = record {
  in_ring = replicate 1024 0;
  out_ring = replicate 2048 65;
  in_cons = 1022;
  in_prod = 1022;
  out_cons = 4294967295;
  out_prod = 1;
}

-- The internal ring holds "BBB".
abbrev console : Console
console = record {
  int_buf = replicate 8192 66;
  int_prod = 8194;
  int_cons = 8191;
  lost_chars = 4;
  has_feed_cb = true;
  fed = [];
}

console-IsIntact : IsIntact console
console-IsIntact = record {
  whole = length-replicate {A = ℕ} 8192 66;
  prod_in = omega arith;
  cons_in = omega arith;
  room = omega arith;
}

read_from_ext_ring_lem_example :
    let (recv, i', c') = read_from_ext_ring intf console in
    (recv ≡ 2) × (guest_output i' ≡ []) × Shown (guest_output intf) console c'
unfolding window
read_from_ext_ring_lem_example =
    read_from_ext_ring_lem intf console (omega arith) (omega arith) (omega arith) console-IsIntact

write_to_ext_ring_lem_example :
    let i' = write_to_ext_ring (b'l' ∷ b's' ∷ []) intf in
    (typed i' ≡ typed intf ++ b'l' ∷ b's' ∷ []) × (i'.out_ring ≡ replicate 2048 65)
write_to_ext_ring_lem_example =
    write_to_ext_ring_lem (b'l' ∷ b's' ∷ []) intf (length-replicate {A = ℕ} 1024 0) (omega arith)
      (omega arith) (omega arith) (omega arith)

-- 1024 bytes were typed before.
abbrev later : Xencons
later = record intf { in_cons = 1024; in_prod = 1024 }

write_to_ext_ring_astray_example :
    let i' = write_to_ext_ring (b'l' ∷ b's' ∷ []) later in
    (i'.in_ring ≡ replicate 1024 0)
    × (i'.in_prod ≡ 1026)
    × (i'.out_ring ≡ put_bytes (replicate 2048 65) 0 (b'l' ∷ b's' ∷ []))
write_to_ext_ring_astray_example =
    write_to_ext_ring_astray (b'l' ∷ b's' ∷ []) later (omega arith) (omega arith) (omega arith)
      (omega arith)

console-IsText : IsText (backlog console)
unfolding window
console-IsText = (omega arith, (omega arith, (omega arith, tt)))

display_text_lem_example :
    let (warned, printed, c') = display console in
    (warned ≡ 4) × (printed ≡ backlog console) × (backlog c' ≡ []) × (c'.lost_chars ≡ 0)
display_text_lem_example = display_text_lem console console-IsIntact (omega arith) console-IsText
