-- ===== src/Vote/DelimFramer2.antt =====
-- GetNextMsg of Sockets_in_C/ch05/VoteClient/src/DelimFramer2.c, which counts in an int and has a
-- `switch` in its loop.
pub mod Agreement
pub mod Examples
use socket_programming_c.Prelude.{
  ℕ, ◌+◌, [], ◌∷◌, Bytes, codes, pos, neg, set, length, ltb, ◌==◌, if◌then◌else◌,
}
use socket_programming_c.Exits.{Run, done, undefined, exit_with_user_msg}
use socket_programming_c.Vote.DelimFramer.{Got, delim}

-- The loop with `cnt` bytes stored so far.
unfoldable pub switch_char : ℕ → Bytes → Bytes → ℕ → Run Got
switch_char bufSize [] buf cnt =
    if cnt == 0
    then done (record { count = neg 1; input = []; buf = buf })
    else exit_with_user_msg (codes "GetNextMsg") (codes "Stream ended prematurely.")
switch_char bufSize (c ∷ rest) buf cnt =
    let again = switch_char bufSize rest (set buf cnt c) (cnt + 1) in
    if c == delim
    then done (record { count = pos cnt; input = rest; buf = buf })
    else if ltb cnt (length buf)
    then (if ltb (cnt + 1) bufSize
        then again
        else done (record { count = neg (cnt + 1); input = rest; buf = set buf cnt c }))
    else undefined

unfoldable pub get_next_msg2 : Bytes → Bytes → ℕ → Run Got
get_next_msg2 input buf bufSize = switch_char bufSize input buf 0
