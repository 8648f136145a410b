-- ===== src/CLib/Stdio.antt =====
-- Streams: `fread`, `fwrite` and `fputc`. Buffering is not modelled: a write that the device
-- refuses fails at once, and `fflush` has no effect.
use socket_programming_c.Prelude.{ℕ, ◌-◌, ◌*◌, ◌/◌, min, [], ◌∷◌, ◌++◌, Bytes, length, take, drop}

-- What can still be read, what was written, and how many more bytes the device takes.
pub record Stream : Type 0 where
  pub input : Bytes
  pub written : Bytes
  pub room : ℕ

-- Writes the bytes that the device still takes.
unfoldable pub emit : Bytes → Stream → Stream
emit bytes s = record s { written = s.written ++ take s.room bytes; room = s.room - length bytes }

-- The number of whole items written; it is 0 for items of size 0.
unfoldable pub fwrite : Bytes → ℕ → ℕ → Stream → ℕ × Stream
unfolding emit
fwrite buf size items s = (min (size * items) s.room / size, emit (take (size * items) buf) s)

unfoldable pub fputc : ℕ → Stream → Stream
unfolding emit
fputc c s = emit (c ∷ []) s

-- The number of whole items read, and the bytes read.
unfoldable pub fread : ℕ → ℕ → Stream → ℕ × Bytes × Stream
fread size items s = (
  min (size * items) (length s.input) / size,
  take (size * items) s.input,
  record s { input = drop (size * items) s.input },
)
