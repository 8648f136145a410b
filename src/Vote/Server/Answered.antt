-- ===== src/Vote/Server/Answered.antt =====
-- What the vote server does with one request for a valid candidate.
use socket_programming_c.Prelude.{
  ℕ, suc, ◌-◌, ◌≤◌, ◌<◌, ◌^◌, ◌≡◌, ◌≢◌, refl, ◌∙◌, ap, Bool, true, [], ◌∷◌, ◌++◌, arith, Bytes, ℤ,
  pos, negsuc, IsInt, residue, to_int, to_int_lem, length, take, drop, All, All-take, newline,
  is_positive,
}
use socket_programming_c.Exits.{done}
use socket_programming_c.CLib.Stdio.{Stream}
use socket_programming_c.CLib.Numerals.{decimal_int}
use socket_programming_c.Vote.Protocol.{VoteInfo, max_wire_size, zeroed}
use socket_programming_c.Vote.DelimFramer.{Got, get_next_msg}
use socket_programming_c.Vote.DelimFramer.Reading.{get_next_msg_line}
use socket_programming_c.Vote.DelimFramer.Writing.{put_msg_written}
use socket_programming_c.Vote.Encoding.{request_text, encode}
use socket_programming_c.Vote.Encoding.Bounds.{
  Clean, request_text-Clean, encode-bounds, encode-Clean,
}
use socket_programming_c.Vote.Decoding.Requests.{
  request, request_memory, decode-request_text, length-request_text,
}
use socket_programming_c.Vote.Server.Words.{IsWord64, response_to, response_to_lem}
use socket_programming_c.Vote.Server.{
  Session, processed, client_finished, is_candidate, respond, say, reply, answer, handle, received,
  session,
}

pub is_candidate-IsInt : (z : ℤ) → is_candidate z ≡ true → IsInt z
unfolding is_candidate
is_candidate-IsInt (pos c) h = ground arith
is_candidate-IsInt (negsuc c) h = absurd (cc)

-- The stream behind a message that `PutMsg` wrote.
abbrev pub behind : Stream → Bytes → ℕ → Stream
behind out buf n = record {
  input = out.input;
  written = out.written ++ take n buf ++ newline ∷ [];
  room = out.room - n - 1;
}

reply-sent :
    (s : Session) (v : VoteInfo) (buf : Bytes) (n : ℕ)
    → Clean (take n buf)
    → 0 < n
    → n ≤ length buf
    → n < 2 ^ 31
    → n < s.channel.room
    → reply s v (buf, n)
      ≡ done (
        say
            (record s { channel = behind s.channel buf n; out_buf = buf })
            (processed v.is_inquiry v.candidate v.count),
        true,
      )
unfolding reply
reply-sent s v buf n c p l m r =
    let size : residue (2 ^ 64) (to_int (pos n)) ≡ n =
      ap (residue (2 ^ 64)) (to_int_lem (pos n) m) ∙ omega arith in
    simp (size, put_msg_written buf n s.channel l c p m r)

-- What `GetNextMsg` brings of a request.
abbrev read : ℤ → Bool → Bytes → Bytes → Got
read z inq rest tail = record {
  count = pos (length (request_text (request z inq)));
  input = rest;
  buf = request_text (request z inq) ++ 0 ∷ tail;
}

read-positive :
    (z : ℤ) (inq : Bool) (rest tail : Bytes) → is_positive (read z inq rest tail).count ≡ true
unfolding request_text
read-positive z inq rest tail = ground arith

-- The session when a request was decoded.
abbrev pub decoded : Session → ℤ → Bool → Bytes → Bytes → Session
decoded s z inq rest tail = record s {
  channel = record s.channel { input = rest };
  in_buf = request_memory inq (decimal_int z ++ 0 ∷ tail);
}

received-answered :
    (s : Session) (z : ℤ) (inq : Bool) (rest tail : Bytes)
    → IsInt z
    → received s (read z inq rest tail) ≡ answer (decoded s z inq rest tail) (request z inq)
unfolding received handle
received-answered s z inq rest tail h =
    let size : ℕ = residue (2 ^ 64) (read z inq rest tail).count in
    simp (decode-request_text z inq tail size zeroed h)

-- The session behind the response, which `Encode` put to `buf`.
abbrev pub answered : Session → ℤ → Bool → Bytes × ℕ → Session
answered s z inq (buf, n) =
    say
      (record s {
        channel = behind s.channel buf n;
        out_buf = buf;
        counts = (respond s.counts (request z inq)).0;
      })
      (processed inq z (response_to s.counts z inq).count)

-- The counters and the output array are as main has them, and the device takes a response.
abbrev pub Able : Session → Type 0
Able s =
    All IsWord64 s.counts
    × Clean s.out_buf
    × (length s.out_buf ≡ max_wire_size)
    × (43 < s.channel.room)

answer-answered :
    (s : Session) (z : ℤ) (inq : Bool) (buf : Bytes) (n : ℕ)
    → IsInt z
    → Able s
    → encode (response_to s.counts z inq) s.out_buf max_wire_size ≡ done (buf, n)
    → answer s (request z inq) ≡ done (answered s z inq (buf, n), true)
unfolding answer
answer-answered s z inq buf n h (words, clean, out, room) e =
    let v : VoteInfo = response_to s.counts z inq in
    let (w, c, i, r) = response_to_lem s.counts z inq h words in
    let h' : IsInt v.candidate = rw c h in
    let (p, l, m) =
      encode-bounds v h' w s.out_buf max_wire_size (omega arith) (omega arith) (omega arith) buf n
        e in
    let k =
      encode-Clean v h' w s.out_buf max_wire_size (omega arith) (omega arith) (omega arith) buf n e
        clean in
    let sent =
      reply-sent (record s { counts = (respond s.counts (request z inq)).0 }) v buf n
        (All-take (λ b. b ≢ newline) n buf k) p (omega arith) (omega arith) (omega arith) in
    simp (e, sent, i, c)

session-step :
    (fuel : ℕ) (s s' : Session) (got : Got)
    → get_next_msg s.channel.input s.in_buf max_wire_size ≡ done got
    → is_positive got.count ≡ true
    → received s got ≡ done (s', true)
    → session (suc fuel) s ≡ session fuel s'
unfolding session
session-step fuel s s' got e p r = simp (e, p, r) refl

pub session-ended :
    (fuel : ℕ) (s : Session)
    → s.channel.input ≡ []
    → session (suc fuel) s
      ≡ done (say (record s { channel = record s.channel { input = [] } }) client_finished)
unfolding session get_next_msg
session-ended fuel s e = simp e refl

-- A round that brings a request for any int, with a NUL behind the place of the request in the
-- input array.
pub session-request :
    (fuel : ℕ) (s : Session) (z : ℤ) (inq : Bool) (rest tail buf : Bytes) (n : ℕ)
    → IsInt z
    → Able s
    → s.channel.input ≡ request_text (request z inq) ++ newline ∷ rest
    → max_wire_size ≤ length s.in_buf
    → drop (length (request_text (request z inq))) s.in_buf ≡ 0 ∷ tail
    → encode (response_to s.counts z inq) s.out_buf max_wire_size ≡ done (buf, n)
    → session (suc fuel) s ≡ session fuel (answered (decoded s z inq rest tail) z inq (buf, n))
session-request fuel s z inq rest tail buf n h able sent long nul e =
    let msg : Bytes = request_text (request z inq) in
    let short : length msg ≤ 21 = length-request_text z inq h in
    let got : get_next_msg s.channel.input s.in_buf max_wire_size ≡ done (read z inq rest tail) =
      rw (sent, ← nul)
        (get_next_msg_line msg rest s.in_buf max_wire_size (request_text-Clean (request z inq))
          (omega arith) (omega arith) long) in
    session-step fuel s (answered (decoded s z inq rest tail) z inq (buf, n)) (read z inq rest tail)
      got (read-positive z inq rest tail)
      (received-answered s z inq rest tail h
        ∙ answer-answered (decoded s z inq rest tail) z inq buf n h able e)
