-- ===== src/Vote/LengthFramer/RoundTrip.antt =====
-- What PutMsg of LengthFramer.c writes, and what GetNextMsg makes of it.
use socket_programming_c.Prelude.{
  ℕ, suc, ◌+◌, ◌-◌, ◌*◌, ◌/◌, ◌%◌, ◌^◌, ◌≤◌, ◌<◌, ◌≡◌, refl, ap, min, true, false, [], ◌∷◌, ◌++◌,
  append_assoc, arith, Bytes, ℤ, pos, neg, to_int, length, length-append, take, drop, take-all,
  take-append, drop-append, ltb, lt→ltb, leb, le→leb, ◌==◌,
}
use socket_programming_c.Exits.{done, undefined}
use socket_programming_c.CLib.Stdio.{Stream, fread, fwrite, emit}
use socket_programming_c.CLib.Format.{store}
use socket_programming_c.Vote.LengthFramer.{
  from_network, to_network, discard, read_message, get_next_msg, put_msg,
}

-- A stream that holds these bytes first.
abbrev pub holding : Bytes → Bytes → ℕ → Stream
holding input written room = record { input = input; written = written; room = room }

fread-all :
    (bytes rest written : Bytes) (room n : ℕ)
    → length bytes ≡ n
    → fread 1 n (holding (bytes ++ rest) written room) ≡ (n, bytes, holding rest written room)
unfolding fread
fread-all bytes rest written room n h =
    let one : 1 * n ≡ length bytes = omega arith in
    let count : min (length bytes) (length (bytes ++ rest)) / 1 ≡ n =
      omega (arith, length-append bytes rest) in
    rw (one, count, take-append bytes rest, drop-append bytes rest) refl

fread-header :
    (a b : ℕ) (rest written : Bytes) (room : ℕ)
    → fread 2 1 (holding (a ∷ b ∷ rest) written room) ≡ (1, a ∷ b ∷ [], holding rest written room)
unfolding fread
fread-header a b rest written room =
    let count : min (2 * 1) (suc (suc (length rest))) / 2 ≡ 1 = omega arith in rw count refl

store-start :
    (buf msg : Bytes)
    → length msg ≤ length buf
    → store buf 0 msg ≡ done (msg ++ drop (length msg) buf)
unfolding store
store-start buf msg h =
    let at : 0 + length msg ≡ length msg = omega arith in
    let fits : leb (length msg) (length buf) ≡ true = le→leb _ _ h in rw (at, fits) refl

from_to_network : (n : ℕ) → from_network (to_network n) ≡ n
from_to_network n = omega arith

-- A message that fits the buffer is read whole.
get_next_msg-fits :
    (msg rest written buf : Bytes) (room bufSize : ℕ)
    → length msg ≤ bufSize
    → bufSize ≤ length buf
    → get_next_msg (holding (to_network (length msg) ++ (msg ++ rest)) written room) buf bufSize
      ≡ done (to_int (pos (length msg)), msg ++ drop (length msg) buf, holding rest written room)
unfolding get_next_msg read_message
get_next_msg-fits msg rest written buf room bufSize h k =
    let small : ltb bufSize (length msg) ≡ false = ground arith in
    let all : (length msg == length msg) ≡ true = ground arith in
    rw
      (
        fread-header (length msg / 256) (length msg % 256) (msg ++ rest) written room,
        from_to_network (length msg),
        small,
        fread-all msg rest written room (length msg) refl,
        store-start buf msg (omega arith),
        all,
      )
      refl

-- A message with up to 100 bytes more than the buffer takes is cut, what is too much is read and
-- dropped, and the result is its size negated.
pub get_next_msg-cut :
    (msg more rest written buf : Bytes) (room bufSize : ℕ)
    → length msg ≡ bufSize
    → 0 < length more
    → length more ≤ 100
    → bufSize ≤ length buf
    → bufSize < 2 ^ 15
    → get_next_msg
        (holding (to_network (bufSize + length more) ++ (msg ++ (more ++ rest))) written room)
        buf
        bufSize
      ≡ done (neg (bufSize + length more), msg ++ drop (length msg) buf, holding rest written room)
unfolding get_next_msg read_message discard
get_next_msg-cut msg more rest written buf room bufSize e p m k s =
    let large : ltb bufSize (bufSize + length more) ≡ true = lt→ltb _ _ (omega arith) in
    let size : bufSize % 2 ^ 16 ≡ bufSize = omega arith in
    let extra : bufSize + length more - bufSize ≡ length more = omega arith in
    let all : (bufSize == bufSize) ≡ true = ground arith in
    let some_extra : ltb 0 (length more) ≡ true = lt→ltb _ _ p in
    let room_left : ltb 100 (length more) ≡ false = ground arith in
    rw
      (
        fread-header ((bufSize + length more) / 256) ((bufSize + length more) % 256)
            (msg ++ (more ++ rest)) written room,
        from_to_network (bufSize + length more),
        large,
        size,
        extra,
        fread-all msg (more ++ rest) written room bufSize e,
        store-start buf msg (omega arith),
        all,
        some_extra,
        fread-all more rest written room (length more) refl,
        room_left,
      )
      refl

-- A message with more than 100 bytes more than the buffer takes is written past the end of the
-- array `waste`.
pub get_next_msg-overflow :
    (msg more rest written buf : Bytes) (room bufSize : ℕ)
    → length msg ≡ bufSize
    → 100 < length more
    → bufSize ≤ length buf
    → bufSize < 2 ^ 15
    → get_next_msg
        (holding (to_network (bufSize + length more) ++ (msg ++ (more ++ rest))) written room)
        buf
        bufSize
      ≡ undefined
unfolding get_next_msg read_message discard
get_next_msg-overflow msg more rest written buf room bufSize e m k s =
    let large : ltb bufSize (bufSize + length more) ≡ true = lt→ltb _ _ (omega arith) in
    let size : bufSize % 2 ^ 16 ≡ bufSize = omega arith in
    let extra : bufSize + length more - bufSize ≡ length more = omega arith in
    let all : (bufSize == bufSize) ≡ true = ground arith in
    let some_extra : ltb 0 (length more) ≡ true = lt→ltb _ _ (omega arith) in
    let too_much : ltb 100 (length more) ≡ true = lt→ltb _ _ m in
    rw
      (
        fread-header ((bufSize + length more) / 256) ((bufSize + length more) % 256)
            (msg ++ (more ++ rest)) written room,
        from_to_network (bufSize + length more),
        large,
        size,
        extra,
        fread-all msg (more ++ rest) written room bufSize e,
        store-start buf msg (omega arith),
        all,
        some_extra,
        fread-all more rest written room (length more) refl,
        too_much,
      )
      refl

put_msg-room :
    (msg input written : Bytes) (room : ℕ)
    → length msg < 2 ^ 16
    → length msg + 2 ≤ room
    → put_msg msg (length msg) (holding input written room) ≡ (
      to_int (pos (length msg)),
      holding input (written ++ (to_network (length msg) ++ msg)) (room - (length msg + 2)),
    )
unfolding put_msg fwrite emit
put_msg-room msg input written room h r =
    let small : ltb 65535 (length msg) ≡ false = ground arith in
    let header : min (2 * 1) room / 2 ≡ 1 = omega arith in
    let two : take room (to_network (length msg)) ≡ to_network (length msg) =
      take-all room _ (omega arith) in
    let one : 1 * length msg ≡ length msg = omega arith in
    let whole : take (length msg) msg ≡ msg = take-all (length msg) msg (omega arith) in
    let fits : take (room - 2) msg ≡ msg = take-all (room - 2) msg (omega arith) in
    let body : min (length msg) (room - 2) / 1 ≡ length msg = omega arith in
    let all : (length msg == length msg) ≡ true = ground arith in
    let left : room - 2 - length msg ≡ room - (length msg + 2) = omega arith in
    rw
      (
        small,
        header,
        two,
        one,
        whole,
        fits,
        body,
        all,
        left,
        append_assoc written (to_network (length msg)) msg,
      )
      refl

-- What PutMsg writes GetNextMsg reads back, and it leaves what was sent behind it: a message of
-- less than 2^16 bytes that is not larger than the reader's buffer, on a device with room for it
-- and two bytes more. Any bytes may stand in it.
pub get_next_msg-put_msg-length :
    (msg input written rest buf : Bytes) (room room' bufSize : ℕ)
    → length msg < 2 ^ 16
    → length msg + 2 ≤ room
    → length msg ≤ bufSize
    → bufSize ≤ length buf
    → (sent : Bytes) × ((put_msg msg (length msg) (holding input written room)).0
        ≡ to_int (pos (length msg)))
      × ((put_msg msg (length msg) (holding input written room)).1.written ≡ written ++ sent)
      × (get_next_msg (holding (sent ++ rest) [] room') buf bufSize
          ≡ done (to_int (pos (length msg)), msg ++ drop (length msg) buf, holding rest [] room'))
get_next_msg-put_msg-length msg input written rest buf room room' bufSize h r b k =
    let put = put_msg-room msg input written room h r in
    (
      to_network (length msg) ++ msg,
      ap (λ (q : ℤ × Stream). q.0) put,
      ap (λ (q : ℤ × Stream). q.1.written) put,
      get_next_msg-fits msg rest [] buf room' bufSize b k,
    )
