-- ===== src/Calls.antt =====
-- What the calls that move bytes bring to the programs.
use socket_programming_c.Prelude.{ℕ, Bytes}

-- What `recv` brings: -1, 0, or bytes, of which there is one at least.
pub data Received : Type 0 where
  failed hung_up : Received
  bytes : ℕ → Bytes → Received
