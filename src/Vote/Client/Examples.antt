-- ===== src/Vote/Client/Examples.antt =====
-- Runs of the vote client, and its theorems at concrete inputs.
use socket_programming_c.Prelude.{
  ℕ, ◌≡◌, ◌≢◌, suc, refl, true, false, [], ◌∷◌, ◌++◌, some, arith, Bytes, codes, pos, length,
  replicate, length-replicate, newline, All-replicate,
}
use socket_programming_c.Exits.{done, exit_with_user_msg}
use socket_programming_c.CLib.Numerals.{atoi, strtoll}
use socket_programming_c.CLib.Tokens.{str_eq}
use socket_programming_c.Net.Lookup.{Lookup, found}
use socket_programming_c.Net.Setup.{Sockets, State, setup_client, client_attempt, try_all}
use socket_programming_c.Vote.Protocol.{max_wire_size}
use socket_programming_c.Vote.Encoding.{request_text}
use socket_programming_c.Vote.Decoding.Requests.{request}
use socket_programming_c.Vote.Server.{Session, is_candidate, init_counts, opened, session}
use socket_programming_c.Vote.Server.Words.{IsWord64}
use socket_programming_c.Vote.Client.{
  Link, sending, received, decode_error, main_vote_client, receive_response, vote, vote_info,
}
use socket_programming_c.Vote.Client.Delivered.{
  arguments, connected, server_of, wire, Answered, IsReady, main_vote_client-session,
}
use socket_programming_c.Vote.Client.Unanswered.{receive_response-unanswered}

abbrev all_succeed : Sockets ℕ
all_succeed = record {
  socket = λ n a. some 3;
  bind = λ n fd a. true;
  connect = λ n fd a. true;
  listen = λ n fd. true;
  getsockname = λ n fd. true;
  reason = λ n. [];
}

abbrev no_calls : State
no_calls = record { calls = 0; log = [] }

abbrev one_address : Bytes → Bytes → Lookup ℕ
one_address host service = found (7 ∷ [])

abbrev zeros : Bytes
zeros = replicate max_wire_size 0

abbrev a_server : Session
a_server = opened [] 99 zeros zeros init_counts []

abbrev a_link : Link
a_link = record {
  fdopen = true;
  room = 99;
  out_buf = zeros;
  in_buf = zeros;
  answer = server_of a_server;
  reason = [];
}

a_server-IsReady : IsReady a_server
a_server-IsReady = (
  All-replicate IsWord64 1001 0 (omega arith),
  All-replicate (λ c. c ≢ newline) max_wire_size 0 (omega arith),
  length-replicate {A = ℕ} max_wire_size 0,
  omega arith,
  refl,
)

fifteen : is_candidate (atoi (codes "15")) ≡ true
unfolding is_candidate atoi strtoll
fifteen = refl

opens : (setup_client all_succeed (7 ∷ []) no_calls).0 ≡ some 3
unfolding setup_client client_attempt try_all
opens = refl

main_vote_client-session_example :
    (main_vote_client all_succeed one_address a_link no_calls
        (arguments (codes "localhost") (codes "7") (codes "15") false)
      ≡ done (
          sending
            (length (request_text (request (atoi (codes "15")) false)))
            false
            (atoi (codes "15"))
          ∷ decode_error
          ∷ []))
    × (s' : Session) × (buf : Bytes) × (n : ℕ) × (session
          (suc (suc (length (wire (atoi (codes "15")) false))))
          (connected a_server (wire (atoi (codes "15")) false))
        ≡ done s')
    × Answered
        (connected a_server (wire (atoi (codes "15")) false))
        (atoi (codes "15"))
        false
        (buf, n)
        s'
main_vote_client-session_example =
    main_vote_client-session all_succeed one_address a_link no_calls (7 ∷ []) 3 (codes "localhost")
      (codes "7") (codes "15") false a_server fifteen refl opens refl
      (length-replicate {A = ℕ} max_wire_size 0) (omega arith)
      (omega (arith, length-replicate {A = ℕ} max_wire_size 0)) refl a_server-IsReady

too_many :
    main_vote_client all_succeed one_address a_link no_calls
      (arguments (codes "localhost") (codes "7") (codes "1001") true)
    ≡ exit_with_user_msg (codes "Candidate # not valid") (codes "1001")
unfolding main_vote_client vote is_candidate atoi strtoll exit_with_user_msg str_eq
too_many = refl

abbrev old_buffer : Link
old_buffer = record a_link { in_buf = request_text (request (pos 3) true) ++ 0 ∷ [] }

receive_response-unanswered_example :
    receive_response old_buffer (vote_info (pos 15) false) []
    ≡ done (received false true (pos 3) ∷ [])
receive_response-unanswered_example =
    receive_response-unanswered old_buffer (vote_info (pos 15) false) (pos 3) true [] (omega arith)
      refl
