-- ===== src/Vch/Tests.antt =====
-- Runs of a channel at concrete inputs.
use zephyr_xenlib.Errno.{ok}
use zephyr_xenlib.Vch.Pair.{vch_read-vch_write, other_end}
use zephyr_xenlib.Buffer.Window.{IsRingSize-2048, IsRingSize-1024}
use zephyr_xenlib.Vch.Flow.{
  vch_write_lem, vch_read_lem, bytes_of, after_read, after_write, got, IsHealthy, Returns,
}
use zephyr_xenlib.Vch.{ok, returns, vch_notify, write_pass, vch_read, passes, Vch, vch_write}
use zephyr_xenlib.Prelude.{
  ℕ, ◌-◌, min, ◌≡◌, refl, true, false, List, [], ◌∷◌, ◌++◌, arith, length, replicate,
  length-replicate,
}

-- The server's end. Four bytes wait for it, across the end of the ring that it reads; the ring that it
-- writes is empty, and its index is about to wrap around 32 bits.
abbrev server : Vch
server = record {
  is_server = true;
  blocking = true;
  read = record { cons = 1022; prod = 1026; cbuf = replicate 1024 7; order = 10 };
  write = record { cons = 4294967295; prod = 4294967295; cbuf = replicate 2048 0; order = 11 };
  cli_live = 1;
  srv_live = 1;
  cli_notify = 1;
  srv_notify = 3;
  answers = [];
  notified = 0;
}

read_end-IsHealthy : IsHealthy server.read
read_end-IsHealthy = record {
  is_size = IsRingSize-1024;
  size_in = omega arith;
  whole = length-replicate {A = ℕ} 1024 7;
  cons_in = omega arith;
  prod_in = omega arith;
  apart = omega arith;
}

write_end-IsHealthy : IsHealthy server.write
write_end-IsHealthy = record {
  is_size = IsRingSize-2048;
  size_in = omega arith;
  whole = length-replicate {A = ℕ} 2048 0;
  cons_in = omega arith;
  prod_in = omega arith;
  apart = omega arith;
}

vch_read_lem_example :
    Returns (got 16 server) 2 (after_read 16 server) (vch_read true 16 [] server)
    × (bytes_of server.read ≡ got 16 server ++ bytes_of (after_read 16 server).read)
    × (length (got 16 server) ≡ 4)
    × IsHealthy (after_read 16 server).read
vch_read_lem_example = vch_read_lem 16 [] server refl read_end-IsHealthy (omega arith)

abbrev message : List ℕ
message = b'p' ∷ b'i' ∷ b'n' ∷ b'g' ∷ []

vch_write_lem_example :
    Returns 4 1 (after_write message server) (vch_write true message [] server)
    × (bytes_of (after_write message server).write ≡ bytes_of server.write ++ message)
    × (4 ≡ min 4 (2048 - 0))
    × IsHealthy (after_write message server).write
vch_write_lem_example = vch_write_lem message [] server refl write_end-IsHealthy (omega arith)

-- The server writes, and the client is notified.
abbrev written : Vch
written = record (after_write message server) { srv_notify = 2; notified = 1 }

wrote_message : vch_write true message [] server ≡ returns (ok 4) written
unfolding vch_write passes write_pass vch_notify
wrote_message = refl

vch_read-vch_write_example :
    Returns message 2
      (after_read 16 (other_end false [] written))
      (vch_read true 16 [] (other_end false [] written))
    × (4 ≡ min 4 2048)
vch_read-vch_write_example =
    vch_read-vch_write message 16 [] [] server written 4 false [] refl write_end-IsHealthy
      (omega arith) (omega arith) wrote_message refl (omega arith)
