-- ===== src/Vote/Protocol.antt =====
-- Sockets_in_C/ch05/VoteServer/src/VoteProtocol.h
use socket_programming_c.Prelude.{ℕ, Bool, false, ℤ, pos}

-- `count` has 64 bits, and `candidate` is an int.
pub record VoteInfo : Type 0 where
  pub count : ℕ
  pub candidate : ℤ
  pub is_inquiry : Bool
  pub is_response : Bool

abbrev pub max_candidate : ℕ
max_candidate = 1000

abbrev pub max_wire_size : ℕ
max_wire_size = 500

-- memset(&v, 0, sizeof(v))
abbrev pub zeroed : VoteInfo
zeroed = record { count = 0; candidate = pos 0; is_inquiry = false; is_response = false }
