-- ===== src/Server/Input/Partial.antt =====
-- A request of which some bytes are read, and what receive makes of it.
use zephyr_xenlib.Common.Ring.Queue.{requests}
use zephyr_xenlib.Server.State.{xenstore_payload_max, InBuffer, Server}
use zephyr_xenlib.Server.Input.{
  Received, fault, returned, complete, word_at, header_size, near_null,
}
use zephyr_xenlib.Prelude.{
  ℕ, ◌+◌, ◌≤◌, ◌<◌, min, ◌≡◌, ap, ◌⊎◌, true, false, not, ◌&&◌, Option, none, some, List, [], ◌++◌,
  length, ltb, ◌==◌, if◌then◌else◌,
}

-- How long the message is, as far as its first bytes say.
abbrev pub expected : List ℕ → ℕ
expected got = if ltb (length got) header_size then header_size else header_size + word_at got 12

-- The request that is being read: its buffer is there, and has room for what is expected.
pub record IsPartial (b : InBuffer) : Type 0 where
  pub there : b.allocated ≡ true
  pub total : b.total_size ≡ expected b.got
  pub room : length b.got ≤ b.total_size
  pub short : header_size ≤ length b.got → word_at b.got 12 ≤ xenstore_payload_max

abbrev pub InputIsPartial : Option InBuffer → Type 0
InputIsPartial none = Unit
InputIsPartial (some b) = IsPartial b

-- The request is not whole yet.
abbrev pub ToCome : Option InBuffer → Type 0
ToCome none = ⊥
ToCome (some b) = IsPartial b × (length b.got < expected b.got)

-- the bytes of the request that is being read
abbrev pub so_far : Option InBuffer → List ℕ
so_far none = []
so_far (some b) = b.got

-- All that the client sent and that no handler has seen: what is read already, and behind it what
-- is in the ring.
abbrev pub unhandled : Server → List ℕ
unhandled s = so_far s.inbuf ++ requests s.domint

-- One byte of the request more than are read, where the ring has one.
abbrev pub one_more : Server → ℕ
one_more s = length (so_far s.inbuf) + min 1 (length (requests s.domint))

-- The bytes that were unhandled before are the message and those after it, or at least `least` bytes of
-- the request are read and it is not whole.
abbrev pub Parted : List ℕ → ℕ → Received → Type 0
Parted before least fault = ⊥
Parted before least (returned s) =
    ((unhandled s ≡ before) × ToCome s.inbuf × (least ≤ length (so_far s.inbuf)))
    ⊎ (header : List ℕ) × (before ≡ header ++ requests s.domint)
      × (length header ≡ header_size)
      × (xenstore_payload_max < word_at header 12)
      × (s.inbuf ≡ none)
Parted before least (complete message s) =
    (before ≡ message ++ requests s.domint)
    × (length message ≡ header_size + word_at message 12)
    × (word_at message 12 ≤ xenstore_payload_max)

pub buffered : (b : InBuffer) → b.allocated ≡ true → near_null b ≡ false
buffered b there = ap (λ a. not a && not (length b.got == 0)) there
