-- ===== src/Vote/DelimFramer/Ending.antt =====
-- The loops of DelimFramer.c end, and a message that was received is gone from the stream.
use socket_programming_c.Prelude.{
  ℕ, zero, suc, ◌+◌, ◌≤◌, ◌<◌, ◌≡◌, true, [], ◌∷◌, arith, Bytes, ℤ, is_positive, length, set,
}
use socket_programming_c.Exits.{done, Ends}
use socket_programming_c.CLib.Stdio.{Stream, fwrite, fputc}
use socket_programming_c.Vote.DelimFramer.{
  Got, next_char, get_next_msg, has_delim, end_msg, put_msg,
}

next_char-le :
    (bufSize : ℕ) (input buf : Bytes) (cnt : ℕ) (g : Got)
    → next_char bufSize input buf cnt ≡ done g
    → length g.input ≤ length input
unfolding next_char
next_char-le bufSize [] buf cnt g e = ground arith
next_char-le bufSize (c ∷ rest) buf cnt g e =
    ground (arith, next_char-le bufSize rest (set buf cnt c) (cnt + 1) g)

next_char-lt :
    (bufSize c : ℕ) (rest buf : Bytes) (cnt : ℕ) (g : Got)
    → next_char bufSize (c ∷ rest) buf cnt ≡ done g
    → length g.input < length (c ∷ rest)
unfolding next_char
next_char-lt bufSize c rest buf cnt g e =
    ground (arith, next_char-le bufSize rest (set buf cnt c) (cnt + 1) g)

-- A positive result took a byte of the stream at least.
pub get_next_msg-lt :
    (input buf : Bytes) (bufSize : ℕ) (g : Got)
    → get_next_msg input buf bufSize ≡ done g
    → is_positive g.count ≡ true
    → length g.input < length input
unfolding get_next_msg
get_next_msg-lt [] buf bufSize g e p = ground arith
get_next_msg-lt (c ∷ rest) buf bufSize g e p = next_char-lt bufSize c rest buf 0 g e

next_char-Ends :
    (bufSize : ℕ) (input buf : Bytes) (cnt : ℕ) → Ends (next_char bufSize input buf cnt)
unfolding next_char
next_char-Ends bufSize [] buf cnt = ground arith
next_char-Ends bufSize (c ∷ rest) buf cnt =
    ground (arith, next_char-Ends bufSize rest (set buf cnt c) (cnt + 1))

pub get_next_msg-Ends : (input buf : Bytes) (bufSize : ℕ) → Ends (get_next_msg input buf bufSize)
unfolding get_next_msg
get_next_msg-Ends input buf bufSize = next_char-Ends bufSize input buf 0

has_delim-Ends : (n : ℕ) (buf : Bytes) → Ends (has_delim n buf)
unfolding has_delim
has_delim-Ends zero buf = ground arith
has_delim-Ends (suc n) [] = ground arith
has_delim-Ends (suc n) (c ∷ buf) = ground (arith, has_delim-Ends n buf)

pub put_msg-Ends : (buf : Bytes) (n : ℕ) (out : Stream) → Ends (put_msg buf n out)
unfolding put_msg
put_msg-Ends buf n out = ground (arith, has_delim-Ends n buf)

-- Writing does not touch what is still to be read.
pub input-put_msg :
    (buf : Bytes) (n : ℕ) (out : Stream) (r : ℤ) (out' : Stream)
    → put_msg buf n out ≡ done (r, out')
    → out'.input ≡ out.input
unfolding put_msg end_msg fwrite fputc
input-put_msg buf n out r out' e = ground arith
