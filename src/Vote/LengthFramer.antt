-- ===== src/Vote/LengthFramer.antt =====
-- Sockets_in_C/ch05/VoteClient/src/LengthFramer.c: GetNextMsg and PutMsg with the size of the
-- message in front of it, as two bytes in network order.
pub mod RoundTrip
pub mod Examples
use socket_programming_c.Prelude.{
  ℕ, ◌+◌, ◌-◌, ◌*◌, ◌/◌, ◌%◌, ◌^◌, List, [], ◌∷◌, ◌++◌, Bytes, ℤ, pos, neg, to_int, length, ltb,
  ◌==◌, if◌then◌else◌,
}
use socket_programming_c.Exits.{Run, done, undefined, ◌>>=◌}
use socket_programming_c.CLib.Stdio.{Stream, fread, fwrite}
use socket_programming_c.CLib.Format.{store}

-- ntohs of the two bytes that were read.
abbrev pub from_network : Bytes → ℕ
from_network (high ∷ low ∷ rest) = high * 256 + low
from_network _ = 0

-- The two bytes of htons(size), for a size below 2^16.
abbrev pub to_network : ℕ → Bytes
to_network size = size / 256 ∷ size % 256 ∷ []

-- The room of `waste`.
abbrev pub buf_size : ℕ
buf_size = 100

-- The result of GetNextMsg, the buffer and the stream.
abbrev pub Framed : Type 0
Framed = ℤ × Bytes × Stream

-- fread(waste, sizeof(uint8_t), extra, in); return -(mSize + extra);
unfoldable pub discard : ℕ → ℕ → Bytes → Stream → Run Framed
discard m_size extra buf inp =
    let (items, bytes, inp') = fread 1 extra inp in
    if ltb buf_size (length bytes) then undefined else done (neg (m_size + extra), buf, inp')

-- What follows the second call of `fread`, which brought `items`.
abbrev pub behind_message : ℕ → ℕ → ℕ → Stream → Bytes → Run Framed
behind_message m_size extra items inp buf =
    if items == m_size
    then (if ltb 0 extra
        then discard m_size extra buf inp
        else done (to_int (pos m_size), buf, inp))
    else done (neg 1, buf, inp)

-- The message itself, of which `extra` bytes have no room.
unfoldable pub read_message : ℕ → ℕ → Bytes → Stream → Run Framed
read_message m_size extra buf inp =
    let (items, bytes, inp') = fread 1 m_size inp in
    store buf 0 bytes >>= behind_message m_size extra items inp'

-- `mSize` and `extra` are uint16_t.
abbrev pub sized : ℕ → ℕ → Bytes → Stream → Run Framed
sized m_size bufSize buf inp =
    if ltb bufSize m_size
    then read_message (bufSize % 2 ^ 16) (m_size - bufSize) buf inp
    else read_message m_size 0 buf inp

unfoldable pub get_next_msg : Stream → Bytes → ℕ → Run Framed
get_next_msg inp buf bufSize =
    let (items, bytes, inp') = fread 2 1 inp in
    if items == 1 then sized (from_network bytes) bufSize buf inp' else done (neg 1, buf, inp')

-- The test of the second call of `fwrite` in PutMsg.
abbrev pub put_end : ℕ → ℕ × Stream → ℤ × Stream
put_end msgSize (written, out) =
    if written == msgSize then (to_int (pos msgSize), out) else (neg 1, out)

-- The test of the first call, and the second one.
abbrev pub put_body : Bytes → ℕ → ℕ × Stream → ℤ × Stream
put_body buf msgSize (items, out) =
    if items == 1 then put_end msgSize (fwrite buf 1 msgSize out) else (neg 1, out)

unfoldable pub put_msg : Bytes → ℕ → Stream → ℤ × Stream
put_msg buf msgSize out =
    if ltb 65535 msgSize
    then (neg 1, out)
    else put_body buf msgSize (fwrite (to_network msgSize) 2 1 out)
