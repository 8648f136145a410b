-- ===== src/Vote/DelimFramer.antt =====
-- Sockets_in_C/ch05/VoteServer/src/DelimFramer.c: messages that end with a newline.
pub mod Reading
pub mod Writing
pub mod Ending
pub mod Examples
use socket_programming_c.Prelude.{
  ℕ, zero, suc, ◌+◌, ◌-◌, ◌%◌, ◌^◌, Bool, true, false, [], ◌∷◌, Bytes, codes, newline, ℤ, pos, neg,
  to_int, length, set, ltb, ◌==◌, if◌then◌else◌,
}
use socket_programming_c.Exits.{Run, done, undefined, exit_with_user_msg, ◌>>=◌}
use socket_programming_c.CLib.Stdio.{Stream, fwrite, fputc}

abbrev pub delim : ℕ
delim = newline

-- The result of `GetNextMsg`, the stream behind what it read, and the caller's buffer.
pub record Got : Type 0 where
  pub count : ℤ
  pub input : Bytes
  pub buf : Bytes

-- `-cnt` is taken at type size_t, and converted to int.
abbrev pub negated : ℕ → ℤ
negated cnt = to_int (pos ((2 ^ 64 - cnt) % 2 ^ 64))

-- The loop of `GetNextMsg` (a round is one call of `getc`, and the end of the input is EOF),
-- with `cnt` bytes stored so far: a round reads one byte of the input.
unfoldable pub next_char : ℕ → Bytes → Bytes → ℕ → Run Got
unfolding exit_with_user_msg
next_char bufSize [] buf cnt =
    if ltb 0 cnt
    then exit_with_user_msg (codes "GetNextMsg()") (codes "Stream ended prematurely")
    else done (record { count = neg 1; input = []; buf = buf })
next_char bufSize (c ∷ rest) buf cnt =
    let again = next_char bufSize rest (set buf cnt c) (cnt + 1) in
    if c == delim
    then done (record { count = to_int (pos cnt); input = rest; buf = buf })
    else if ltb cnt (length buf)
    then (if ltb (cnt + 1) bufSize
        then again
        else done (record { count = negated (cnt + 1); input = rest; buf = set buf cnt c }))
    else undefined

unfoldable pub get_next_msg : Bytes → Bytes → ℕ → Run Got
unfolding next_char
get_next_msg input buf bufSize = next_char bufSize input buf 0

-- The loop of `PutMsg` that looks for the delimiter.
unfoldable pub has_delim : ℕ → Bytes → Run Bool
has_delim zero buf = done false
has_delim (suc n) [] = undefined
has_delim (suc n) (c ∷ buf) = if c == delim then done true else has_delim n buf

-- What follows the call of `fwrite`.
unfoldable pub end_msg : ℕ → ℕ × Stream → ℤ × Stream
end_msg msgSize (items, out) =
    if items == 1 then (to_int (pos msgSize), fputc delim out) else (neg 1, out)

unfoldable pub put_msg : Bytes → ℕ → Stream → Run (ℤ × Stream)
put_msg buf msgSize out = do
  found ← has_delim msgSize buf
  if found then done (neg 1, out) else done (end_msg msgSize (fwrite buf msgSize 1 out))
