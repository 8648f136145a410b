-- ===== src/Vote/Server/Bounded.antt =====
-- The vote server stays within its buffers.
use socket_programming_c.Prelude.{ℕ, ◌≤◌, ◌≡◌, Bool, true, Bytes, is_positive, length, All}
use socket_programming_c.Vote.Protocol.{max_wire_size}
use socket_programming_c.Vote.DelimFramer.{Got}
use socket_programming_c.Vote.Decoding.Ended.{EndsNul}
use socket_programming_c.Vote.Server.{Session, Arrival, client, accept_failed, fdopen_failed}
use socket_programming_c.Vote.Server.Words.{IsWord64}

-- The input buffer behind `GetNextMsg`: it has its length, and if the result is positive, also
-- the NUL at its end.
abbrev Filled : Got → Type 0
Filled g = (length g.buf ≡ max_wire_size) × (is_positive g.count ≡ true → EndsNul g.buf)

-- A session with its two arrays of 500 bytes, a NUL at the end of the input, and its counters.
abbrev pub Bounded : Session → Type 0
Bounded s =
    (length s.in_buf ≡ max_wire_size)
    × EndsNul s.in_buf
    × (length s.out_buf ≡ max_wire_size)
    × All IsWord64 s.counts

abbrev Continued : Session × Bool → Type 0
Continued (s, again) = Bounded s

abbrev Small : Bytes × ℕ → Type 0
Small (buf, n) = (length buf ≡ max_wire_size) × (n ≤ 43)

-- What is left of it when the connection ends.
abbrev Left : Session → Type 0
Left s = All IsWord64 s.counts

-- A connection whose arrays are as they should be when it begins; what the client sends is free.
abbrev pub Sound : Arrival → Type 0
Sound (accept_failed reason) = Unit
Sound (fdopen_failed reason) = Unit
Sound (client input room in_buf out_buf) =
    (length in_buf ≡ max_wire_size) × EndsNul in_buf × (length out_buf ≡ max_wire_size)
