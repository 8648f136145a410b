-- ===== src/Vote/Client.antt =====
-- Sockets_in_C/ch05/VoteClient/src/main.c: the vote client, which sends one request and prints
-- the response.
pub mod Delivered
pub mod Unanswered
pub mod Examples
use socket_programming_c.Prelude.{
  ℕ, ◌+◌, ◌^◌, Bool, true, false, List, [], ◌∷◌, ◌++◌, Option, none, some, Bytes, codes, ℤ, is_neg,
  residue, if◌then◌else◌,
}
use socket_programming_c.Exits.{
  Run, done, undefined, exit_with_system_msg, exit_with_user_msg, ◌>>=◌,
}
use socket_programming_c.CLib.Stdio.{Stream}
use socket_programming_c.CLib.Tokens.{str_eq}
use socket_programming_c.CLib.Numerals.{atoi}
use socket_programming_c.Net.Lookup.{Lookup, get_addr_list}
use socket_programming_c.Net.Setup.{Sockets, State, setup_client}
use socket_programming_c.Vote.Protocol.{VoteInfo, max_wire_size, zeroed}
use socket_programming_c.Vote.DelimFramer.{Got, get_next_msg, put_msg}
use socket_programming_c.Vote.Encoding.{encode}
use socket_programming_c.Vote.Decoding.{Decoded, accepted, rejected, overrun, decode}
use socket_programming_c.Vote.Server.{is_candidate}

-- What the client prints: `sending` has the size, the kind and the candidate, and `received` has
-- whether it is a response, the kind and the candidate.
pub data Line : Type 0 where
  sending : ℕ → Bool → ℤ → Line
  received : Bool → Bool → ℤ → Line
  count_is : ℕ → Line
  decode_error : Line

-- The connection: whether `fdopen` wraps it, how much the device takes, what the two buffers hold
-- by chance, and what the server sends once it was sent these bytes.
pub record Link : Type 0 where
  pub fdopen : Bool
  pub room : ℕ
  pub out_buf : Bytes
  pub in_buf : Bytes
  pub answer : Bytes → Bytes
  pub reason : Bytes

-- memset(&vi, 0, sizeof(vi)); vi.isInquiry = inq; vi.candidate = candidate;
abbrev pub vote_info : ℤ → Bool → VoteInfo
vote_info candidate inq = record zeroed { is_inquiry = inq; candidate = candidate }

-- The lines behind a `Decode` that succeeded.
abbrev pub report : VoteInfo → List Line
report vi =
    received vi.is_response vi.is_inquiry vi.candidate
    ∷ (if vi.is_response then count_is vi.count ∷ [] else [])

module _ (k : Link) where
  -- The test of what `PutMsg` returns.
  unfoldable pub if_sent : Line → ℤ × Stream → Run (List Line × Stream)
  unfolding exit_with_system_msg
  if_sent line (sent, str) =
      if is_neg sent
      then exit_with_system_msg (codes "PutMsg() failed") k.reason
      else done (line ∷ [], str)

  -- From `Encode` to `PutMsg`.
  unfoldable pub send_request : VoteInfo → Run (List Line × Stream)
  send_request vi = do
    (out_buf, reqSize) ← encode vi k.out_buf max_wire_size
    put ← put_msg out_buf reqSize (record { input = []; written = []; room = k.room })
    if_sent (sending reqSize vi.is_inquiry vi.candidate) put

  unfoldable pub print_response : Decoded (VoteInfo × Bytes) → Run (List Line)
  print_response overrun = undefined
  print_response (rejected vi) = done (decode_error ∷ [])
  print_response (accepted (vi, in_buf)) = done (report vi)

  -- From `GetNextMsg` on: its result is converted to size_t, and not tested.
  unfoldable pub receive_response : VoteInfo → Bytes → Run (List Line)
  receive_response vi input = do
    got ← get_next_msg input k.in_buf max_wire_size
    print_response (decode got.buf (residue (2 ^ 64) got.count) vi)

  -- From the set up of `vi` on.
  unfoldable pub exchange : ℤ → Bool → Run (List Line)
  exchange candidate inq = do
    (lines, str) ← send_request (vote_info candidate inq)
    lines' ← receive_response (vote_info candidate inq) (k.answer str.written)
    done (lines ++ lines')

  abbrev pub if_opened : Option ℕ → Run (List Line) → Run (List Line)
  if_opened none next =
      exit_with_user_msg (codes "SetupClient() failed") (codes "unable to connect")
  if_opened (some sock) next =
      if k.fdopen then next else exit_with_system_msg (codes "fdopen() failed") k.reason

module _ {A : Type 0} (sys : Sockets A) (getaddrinfo : Bytes → Bytes → Lookup A) (k : Link) where
  -- main from the test of the candidate on.
  unfoldable pub vote : State → Bytes → Bytes → Bytes → Bool → Run (List Line)
  vote st server service candidate inq =
      if is_candidate (atoi candidate)
      then (do
        list ← get_addr_list (getaddrinfo server service)
        if_opened k (setup_client sys list st).0 (exchange k (atoi candidate) inq))
      else exit_with_user_msg (codes "Candidate # not valid") candidate

  -- main, with the arguments behind the program's name.
  unfoldable pub main_vote_client : State → List Bytes → Run (List Line)
  main_vote_client st (server ∷ service ∷ candidate ∷ []) = vote st server service candidate false
  main_vote_client st (server ∷ service ∷ candidate ∷ kind ∷ []) =
      vote st server service candidate (str_eq kind (codes "I"))
  main_vote_client st args =
      exit_with_user_msg (codes "Parameter(s)") (codes "<Server> <Port/Service> <Candidate> [I]")
