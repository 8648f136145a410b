-- ===== src/Vote/Server.antt =====
-- Sockets_in_C/ch05/VoteServer/src/main.c: the vote server. Its counters are static, so they
-- outlive the connections, which it serves one after the other.
pub mod Ending
pub mod Cut
pub mod Rounds
pub mod Tally
pub mod Counting
pub mod Words
pub mod Answered
pub mod Requests
pub mod Ballots
pub mod Election
pub mod Bounded
pub mod Main
pub mod Examples
use socket_programming_c.Prelude.{
  ℕ, zero, suc, ◌+◌, ◌%◌, ◌^◌, Bool, true, false, List, [], ◌∷◌, ◌++◌, Bytes, ℤ, pos, negsuc,
  is_neg, is_positive, residue, to_int, set, get_or, replicate, codes, length, leb, if◌then◌else◌,
}
use socket_programming_c.Exits.{Run, done, undefined, out_of_fuel, exit_with_system_msg, ◌>>=◌}
use socket_programming_c.CLib.Stdio.{Stream}
use socket_programming_c.Vote.Protocol.{VoteInfo, max_candidate, max_wire_size, zeroed}
use socket_programming_c.Vote.DelimFramer.{Got, get_next_msg, put_msg}
use socket_programming_c.Vote.Encoding.{encode}
use socket_programming_c.Vote.Decoding.{Decoded, accepted, rejected, overrun, decode}

-- What the server prints. `processed` has the kind of the request, its candidate and the count.
pub data Line : Type 0 where
  parse_error put_error client_finished : Line
  processed : Bool → ℤ → ℕ → Line

-- One connection: its stream, the two buffers on the stack, the counters, and what was printed.
pub record Session : Type 0 where
  pub channel : Stream
  pub in_buf : Bytes
  pub out_buf : Bytes
  pub counts : List ℕ
  pub log : List Line

abbrev pub init_counts : List ℕ
init_counts = replicate (max_candidate + 1) 0

-- v.candidate >= 0 && v.candidate <= MAX_CANDIDATE
unfoldable pub is_candidate : ℤ → Bool
is_candidate (pos c) = leb c max_candidate
is_candidate (negsuc c) = false

-- The index that a valid candidate is.
abbrev pub index : ℤ → ℕ
index (pos c) = c
index (negsuc c) = 0

-- counts[c]++
abbrev pub increment : List ℕ → ℕ → List ℕ
increment counts c = set counts c ((get_or counts c 0 + 1) % 2 ^ 64)

-- v.count = counts[v.candidate]
abbrev pub with_count : List ℕ → VoteInfo → List ℕ × VoteInfo
with_count counts v =
    (counts, record v { count = get_or counts (index v.candidate) 0; is_response = true })

-- The counters and the response to a request.
unfoldable pub respond : List ℕ → VoteInfo → List ℕ × VoteInfo
unfolding is_candidate
respond counts v =
    if is_candidate v.candidate
    then (if v.is_inquiry
        then with_count counts v
        else with_count (increment counts (index v.candidate)) v)
    else (counts, record v { is_response = true })

abbrev pub say : Session → Line → Session
say s line = record s { log = s.log ++ line ∷ [] }

-- `PutMsg` and the test of its result. The Boolean says whether the loop goes on.
unfoldable pub reply : Session → VoteInfo → Bytes × ℕ → Run (Session × Bool)
reply s v (out_buf, m_size) = do
  (sent, channel) ← put_msg out_buf (residue (2 ^ 64) (to_int (pos m_size))) s.channel
  let s' : Session = record s { channel = channel; out_buf = out_buf }
  if is_neg sent
      then done (say s' put_error, false)
      else done (say s' (processed v.is_inquiry v.candidate v.count), true)

-- The loop's body from the response on.
unfoldable pub answer : Session → VoteInfo → Run (Session × Bool)
answer s v = do
  let (counts, v') = respond s.counts v
  encoded ← encode v' s.out_buf max_wire_size
  reply (record s { counts = counts }) v' encoded

-- The loop's body, once `Decode` is done.
unfoldable pub handle : Session → Decoded (VoteInfo × Bytes) → Run (Session × Bool)
handle s overrun = undefined
handle s (rejected v) = done (say s parse_error, false)
handle s (accepted (v, in_buf)) =
    if v.is_response
    then done (record s { in_buf = in_buf }, true)
    else answer (record s { in_buf = in_buf }) v

-- The loop's body behind `GetNextMsg`, whose result `mSize` is positive.
unfoldable pub received : Session → Got → Run (Session × Bool)
received s got =
    handle (record s { channel = record s.channel { input = got.input }; in_buf = got.buf })
      (decode got.buf (residue (2 ^ 64) got.count) zeroed)

-- One connection, up to `fclose`.
unfoldable pub session : ℕ → Session → Run Session
session zero s = out_of_fuel
session (suc fuel) s = do
  got ← get_next_msg s.channel.input s.in_buf max_wire_size
  let last : Session = record s {
    channel = record s.channel { input = got.input };
    in_buf = got.buf;
  }
  let body : Run Session = do
    (s', again) ← received s got
    let rest : Run Session = session fuel s'
    if again then rest else done (say s' client_finished)
  if is_positive got.count then body else done (say last client_finished)

-- What `accept` and `fdopen` bring: a connection with what its client sends, how much its device
-- takes, and what the two buffers hold by chance; or a failure with the text of errno.
pub data Arrival : Type 0 where
  accept_failed fdopen_failed : Bytes → Arrival
  client : Bytes → ℕ → Bytes → Bytes → Arrival

abbrev pub opened : Bytes → ℕ → Bytes → Bytes → List ℕ → List Line → Session
opened input room in_buf out_buf counts log = record {
  channel = record { input = input; written = []; room = room };
  in_buf = in_buf;
  out_buf = out_buf;
  counts = counts;
  log = log;
}

-- The accepting loop over the arrivals: the counters and the output when it waits for the next
-- one.
unfoldable pub serve : List Arrival → List ℕ → List Line → Run (List ℕ × List Line)
unfolding exit_with_system_msg
serve [] counts log = done (counts, log)
serve (accept_failed reason ∷ more) counts log =
    exit_with_system_msg (codes "accept() failed") reason
serve (fdopen_failed reason ∷ more) counts log =
    exit_with_system_msg (codes "fdopen() failed") reason
serve (client input room in_buf out_buf ∷ more) counts log = do
  s ← session (suc (length input)) (opened input room in_buf out_buf counts log)
  serve more s.counts s.log
