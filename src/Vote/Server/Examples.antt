-- ===== src/Vote/Server/Examples.antt =====
-- Runs of the vote server, and its theorems at concrete inputs.
use mathlib.Core.List.Perm
use socket_programming_c.Prelude.{
  ℕ, set, ◌++◌, ◌≡◌, refl, [], ◌∷◌, List, arith, Bytes, codes, pos, replicate, newline, true, false,
  get_or, Option, some, none,
}
use socket_programming_c.CLib.Tokens.{str_eq}
use socket_programming_c.Exits.{Run, done, Ends, exit_with_system_msg}
use socket_programming_c.CLib.Numerals.{atoi, strtoll}
use socket_programming_c.CLib.Format.{snprintf}
use socket_programming_c.CLib.Stdio.{fwrite, fputc}
use socket_programming_c.Vote.DelimFramer.{get_next_msg, put_msg, has_delim, end_msg}
use socket_programming_c.Vote.Encoding.{encode, request_text, count_text}
use socket_programming_c.Vote.Decoding.{
  decode, decode_kind, decode_response, decode_numbers, next_token,
}
use socket_programming_c.Vote.Protocol.{VoteInfo}
use socket_programming_c.Vote.Server.Ending.{session-Ends}
use socket_programming_c.Net.Lookup.{found, get_addr_list}
use socket_programming_c.Net.Setup.{
  State, Event, bound, listening, try_all, server_attempt, setup_server,
}
use socket_programming_c.Net.Setup.Servers.{Listens}
use socket_programming_c.Net.Setup.Named.{setup_service}
use socket_programming_c.Net.Setup.Examples.{sockets, start}
use socket_programming_c.Vote.Server.Main.{
  main_vote_server, accepting, CountsVotes, main_vote_server-done,
}
use socket_programming_c.Vote.Server.{
  Line, Session, Arrival, client, processed, client_finished, init_counts, opened, session,
  received, handle, answer, respond, reply, serve,
}

abbrev a_vote : VoteInfo
a_vote = record { count = 0; candidate = pos 15; is_inquiry = false; is_response = false }

abbrev outcome : Run (List ℕ × List Line) → Option (ℕ × List Line)
outcome (done (counts, log)) = some (get_or counts 15 0, log)
outcome _ = none

abbrev two_requests : Bytes
two_requests = codes "Voting v  15" ++ newline ∷ codes "Voting i  15" ++ newline ∷ []

served :
    outcome (serve (client two_requests 99 (replicate 500 0) (replicate 500 0) ∷ []) init_counts [])
    ≡ some (1, processed false (pos 15) 1 ∷ processed true (pos 15) 1 ∷ client_finished ∷ [])
unfolding serve session received handle answer respond reply decode decode_kind decode_response
    decode_numbers next_token str_eq atoi strtoll encode get_next_msg put_msg has_delim end_msg
    request_text count_text snprintf fwrite fputc
served = refl

abbrev zeros : Bytes
zeros = replicate 500 0

session-Ends_example :
    Ends (session 13 (opened (codes "Voting v  15") 99 zeros zeros init_counts []))
session-Ends_example =
    session-Ends 13 (opened (codes "Voting v  15") 99 zeros zeros init_counts []) (omega arith)

abbrev one_arrival : List Arrival
one_arrival = client (codes "Voting v  15" ++ newline ∷ []) 99 zeros zeros ∷ []

one_vote :
    serve one_arrival init_counts []
    ≡ done (set init_counts 15 1, processed false (pos 15) 1 ∷ client_finished ∷ [])
unfolding serve session received handle answer respond reply decode decode_kind decode_response
    decode_numbers next_token str_eq atoi strtoll encode get_next_msg put_msg has_delim end_msg
    request_text count_text snprintf fwrite fputc
one_vote = refl

abbrev listening_state : State
listening_state = record { calls = 3; log = Event.opened 3 ∷ bound 3 ∷ listening 3 ∷ [] }

started :
    main_vote_server sockets 2 (found (7 ∷ [])) start one_arrival
    ≡ done
        (listening_state, set init_counts 15 1, processed false (pos 15) 1 ∷ client_finished ∷ [])
unfolding main_vote_server accepting setup_service get_addr_list setup_server try_all server_attempt
started = rw one_vote

main_vote_server-done_example :
    ((fd : ℕ) × Listens fd listening_state.log)
    × CountsVotes sockets (set init_counts 15 1) (processed false (pos 15) 1 ∷ client_finished ∷ [])
main_vote_server-done_example =
    main_vote_server-done sockets 2 (found (7 ∷ [])) start listening_state one_arrival
      (set init_counts 15 1) (processed false (pos 15) 1 ∷ client_finished ∷ []) (Perm.refl [])
      started

no_listener :
    main_vote_server sockets 2 (found (5 ∷ [])) start one_arrival
    ≡ exit_with_system_msg (codes "accept() failed") (codes "Bad file descriptor")
unfolding main_vote_server accepting setup_service get_addr_list setup_server try_all server_attempt
    exit_with_system_msg
no_listener = refl

abbrev a_session : Session
a_session = opened [] 99 zeros zeros init_counts []

abbrev behind_vote : Session
behind_vote = record a_session {
  counts = set init_counts 15 1;
  log = processed false (pos 15) 1 ∷ [];
  out_buf = codes " 1" ++ 0 ∷ codes "ing v R 15" ++ replicate 487 0;
  channel = record {
    input = [];
    written = codes " 1" ++ 0 ∷ codes "ing v R 15" ++ 0 ∷ 0 ∷ newline ∷ [];
    room = 83;
  };
}

answered : answer a_session a_vote ≡ done (behind_vote, true)
unfolding answer respond reply encode put_msg has_delim end_msg request_text count_text snprintf
    fwrite fputc
answered = refl
