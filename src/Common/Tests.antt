-- ===== src/Common/Tests.antt =====
-- Runs of the ring, of the permission strings and of the error strings at concrete inputs.
use zephyr_xenlib.Prelude.{
  ℕ, ◌≡◌, false, some, List, [], ◌∷◌, ◌++◌, arith, length, replicate, length-replicate,
}
use zephyr_xenlib.Errno.{ok, einval}
use zephyr_xenlib.Common.Ring.{Interface, ring_write, ring_read}
use zephyr_xenlib.Common.Ring.Queue.{IsValid, requests, responses}
use zephyr_xenlib.Common.Ring.Progress.{ring_write_lem, ring_read_lem}
use zephyr_xenlib.Common.Perm.{PermEntry, perm_parse_wire}
use zephyr_xenlib.Common.Perm.Serial.{serialize_perms, parse-serialize}
use zephyr_xenlib.Common.Errors.{get_error, error_string, get_error-error_string}

-- Two bytes wait in each direction, and the replies' producer index is about to wrap around.
abbrev pub wrapping : Interface
wrapping = record {
  req = replicate 1024 65;
  rsp = replicate 1024 66;
  req_cons = 1;
  req_prod = 3;
  rsp_cons = 4294967292;
  rsp_prod = 4294967294;
  server_features = 0;
  connection = 0;
}

pub wrapping-IsValid : IsValid wrapping
wrapping-IsValid = record {
  req_sound = record {
    whole = length-replicate {A = ℕ} 1024 65;
    cons_in = omega arith;
    prod_in = omega arith;
    apart = omega arith;
  };
  rsp_sound = record {
    whole = length-replicate {A = ℕ} 1024 66;
    cons_in = omega arith;
    prod_in = omega arith;
    apart = omega arith;
  };
}

ring_write_lem_example :
    let (r, i') = ring_write wrapping (1 ∷ 2 ∷ 3 ∷ []) false in
    (r ≡ ok 2)
    × (responses i' ≡ responses wrapping ++ 1 ∷ 2 ∷ [])
    × (requests i' ≡ requests wrapping)
    × IsValid i'
ring_write_lem_example = ring_write_lem false wrapping (1 ∷ 2 ∷ 3 ∷ []) wrapping-IsValid

ring_read_lem_example :
    (got : List ℕ) × ((ring_read wrapping 5 false).0 ≡ ok got)
    × (length got ≡ 2)
    × (requests wrapping ≡ got ++ requests (ring_read wrapping 5 false).1)
    × (responses (ring_read wrapping 5 false).1 ≡ responses wrapping)
    × IsValid (ring_read wrapping 5 false).1
ring_read_lem_example = ring_read_lem false wrapping 5 wrapping-IsValid

abbrev two_perms : List PermEntry
two_perms = record { domid = 32767; perm = 3 } ∷ record { domid = 5; perm = 1 } ∷ []

parse-serialize_example : perm_parse_wire (serialize_perms two_perms) (some 2) ≡ ok two_perms
parse-serialize_example =
    parse-serialize two_perms (some 2) (omega arith, (omega arith, tt)) (omega arith)

get_error-error_string_example :
    get_error (error_string einval) (length (error_string einval)) ≡ some einval
get_error-error_string_example = get_error-error_string einval
