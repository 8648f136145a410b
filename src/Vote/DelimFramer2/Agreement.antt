-- ===== src/Vote/DelimFramer2/Agreement.antt =====
-- The two framings by newline read the same messages.
use socket_programming_c.Prelude.{
  ℕ, ◌+◌, ◌^◌, ◌<◌, ◌≡◌, [], ◌∷◌, arith, Bytes, pos, neg, to_int, to_int_lem, set,
}
use socket_programming_c.Exits.{done, exit_with_user_msg}
use socket_programming_c.Vote.DelimFramer.{Got, negated, next_char, get_next_msg}
use socket_programming_c.Vote.DelimFramer2.{switch_char, get_next_msg2}

negated-small : (n : ℕ) → 0 < n → n < 2 ^ 31 → negated n ≡ neg n
negated-small n p h = ground arith

rounds_agree :
    (bufSize : ℕ) (input buf : Bytes) (cnt : ℕ) (g : Got)
    → bufSize < 2 ^ 31
    → cnt + 1 < 2 ^ 31
    → next_char bufSize input buf cnt ≡ done g
    → switch_char bufSize input buf cnt ≡ done g
unfolding next_char switch_char exit_with_user_msg
rounds_agree bufSize [] buf cnt g s h e = ground (arith, e)
rounds_agree bufSize (c ∷ rest) buf cnt g s h e =
    let back : negated (cnt + 1) ≡ neg (cnt + 1) = negated-small (cnt + 1) (omega arith) h in
    let same : to_int (pos cnt) ≡ pos cnt = to_int_lem (pos cnt) (omega arith) in
    ground (arith, e, back, same, rounds_agree bufSize rest (set buf cnt c) (cnt + 1) g s)

-- Whatever GetNextMsg of DelimFramer.c returns, that of DelimFramer2.c returns too, with the same
-- count, buffer and rest of the stream, for a buffer of less than 2^31 bytes.
pub get_next_msg2-get_next_msg :
    (input buf : Bytes) (bufSize : ℕ) (g : Got)
    → bufSize < 2 ^ 31
    → get_next_msg input buf bufSize ≡ done g
    → get_next_msg2 input buf bufSize ≡ done g
unfolding get_next_msg get_next_msg2
get_next_msg2-get_next_msg input buf bufSize g s e =
    rounds_agree bufSize input buf 0 g s (omega arith) e
