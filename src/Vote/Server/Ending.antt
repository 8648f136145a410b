-- ===== src/Vote/Server/Ending.antt =====
-- Every connection of the vote server ends.
use socket_programming_c.Prelude.{
  ℕ, zero, suc, ◌^◌, ◌<◌, ◌≡◌, Bool, true, false, arith, Bytes, pos, is_positive, residue, to_int,
  length, Bool-cases, inl, inr, ap, if◌then◌else◌,
}
use socket_programming_c.Exits.{done, Ends, Ends-bind, >>=-eq-done}
use socket_programming_c.CLib.Format.{snprintf}
use socket_programming_c.Vote.Protocol.{VoteInfo, zeroed, max_wire_size}
use socket_programming_c.Vote.DelimFramer.{Got, put_msg, get_next_msg}
use socket_programming_c.Vote.DelimFramer.Ending.{
  get_next_msg-lt, get_next_msg-Ends, put_msg-Ends, input-put_msg,
}
use socket_programming_c.Vote.Encoding.{encode}
use socket_programming_c.Vote.Decoding.{Decoded, accepted, rejected, overrun, decode}
use socket_programming_c.Vote.Server.{
  Session, reply, answer, handle, received, session, respond, say, client_finished,
}

encode-Ends : (v : VoteInfo) (buf : Bytes) (n : ℕ) → Ends (encode v buf n)
unfolding encode snprintf
encode-Ends v buf n = ground arith

reply-Ends : (s : Session) (v : VoteInfo) (e : Bytes × ℕ) → Ends (reply s v e)
unfolding reply
reply-Ends s v (buf, n) =
    ground (arith, put_msg-Ends buf (residue (2 ^ 64) (to_int (pos n))) s.channel)

input-reply :
    (s : Session) (v : VoteInfo) (e : Bytes × ℕ) (s' : Session) (again : Bool)
    → reply s v e ≡ done (s', again)
    → s'.channel.input ≡ s.channel.input
unfolding reply
input-reply s v (buf, n) s' again e =
    let ((r, out'), sent, rest) =
      >>=-eq-done (put_msg buf (residue (2 ^ 64) (to_int (pos n))) s.channel) _ e in
    let kept : out'.input ≡ s.channel.input = input-put_msg buf _ s.channel r out' sent in
    ground arith

answer-Ends : (s : Session) (v : VoteInfo) → Ends (answer s v)
unfolding answer
answer-Ends s v =
    Ends-bind (encode (respond s.counts v).1 s.out_buf max_wire_size) _
      (encode-Ends (respond s.counts v).1 s.out_buf max_wire_size)
      λ e _. reply-Ends (record s { counts = (respond s.counts v).0 }) (respond s.counts v).1 e

input-answer :
    (s : Session) (v : VoteInfo) (s' : Session) (again : Bool)
    → answer s v ≡ done (s', again)
    → s'.channel.input ≡ s.channel.input
unfolding answer
input-answer s v s' again e =
    let (encoded, _, r) = >>=-eq-done (encode (respond s.counts v).1 s.out_buf max_wire_size) _ e in
    input-reply (record s { counts = (respond s.counts v).0 }) (respond s.counts v).1 encoded s'
      again r

handle-Ends : (s : Session) (d : Decoded (VoteInfo × Bytes)) → Ends (handle s d)
unfolding handle
handle-Ends s overrun = ground arith
handle-Ends s (rejected v) = ground arith
handle-Ends s (accepted (v, in_buf)) = ground (arith, answer-Ends (record s { in_buf = in_buf }) v)

input-handle :
    (s : Session) (d : Decoded (VoteInfo × Bytes)) (s' : Session) (again : Bool)
    → handle s d ≡ done (s', again)
    → s'.channel.input ≡ s.channel.input
unfolding handle
input-handle s overrun s' again e = cc
input-handle s (rejected v) s' again e = ground arith
input-handle s (accepted (v, in_buf)) s' again e =
    ground (arith, input-answer (record s { in_buf = in_buf }) v s' again)

received-Ends : (s : Session) (got : Got) → Ends (received s got)
unfolding received
received-Ends s got = handle-Ends _ (decode got.buf (residue (2 ^ 64) got.count) zeroed)

input-received :
    (s : Session) (got : Got) (s' : Session) (again : Bool)
    → received s got ≡ done (s', again)
    → s'.channel.input ≡ got.input
unfolding received
input-received s got s' again e = input-handle _ _ s' again e

-- The round that goes on has fewer bytes to read.
again-Ends :
    (fuel : ℕ) (s : Session) (again : Bool)
    → Ends (session fuel s)
    → Ends (if again then session fuel s else done (say s client_finished))
again-Ends fuel s true h = h
again-Ends fuel s false h = λ e. cc

-- With more fuel than bytes that the client sends, a connection does not run out of fuel: it
-- ends, or it ends the process.
pub session-Ends : (fuel : ℕ) (s : Session) → length s.channel.input < fuel → Ends (session fuel s)
unfolding session
session-Ends zero s h = elim h [ ]
session-Ends (suc fuel) s h =
    Ends-bind (get_next_msg s.channel.input s.in_buf max_wire_size) _
      (get_next_msg-Ends s.channel.input s.in_buf max_wire_size)
      λ got e. elim (Bool-cases (is_positive got.count)) [
        | inl p ↦ rw p (
            Ends-bind (received s got) _ (received-Ends s got) λ r f. again-Ends fuel r.0 r.1 (
              session-Ends fuel r.0 (
                omega (
                  arith,
                  get_next_msg-lt s.channel.input s.in_buf max_wire_size got e p,
                  ap (λ (b : Bytes). length b) (input-received s got r.0 r.1 f),
                ))))
        | inr p ↦ rw p (λ e'. cc)
      ]
