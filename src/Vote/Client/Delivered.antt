-- ===== src/Vote/Client/Delivered.antt =====
-- The vote client and the vote server together: one request, and the response to it.
use socket_programming_c.Prelude.{
  ℕ, suc, ◌-◌, ◌≤◌, ◌<◌, ◌^◌, ◌≡◌, refl, ◌∙◌, ap, Bool, true, false, List, [], ◌∷◌, ◌++◌, some,
  arith, Bytes, codes, ℤ, IsInt, length, take, drop, length-take, replicate, length-replicate,
  drop-replicate, take-append, newline, All, All-take, ◌≢◌, append_assoc,
}
use socket_programming_c.Exits.{Run, done, undefined, out_of_fuel, exit_failure, exit_success}
use socket_programming_c.CLib.Tokens.{str_eq}
use socket_programming_c.CLib.Numerals.{atoi}
use socket_programming_c.Net.Lookup.{Lookup, found, get_addr_list}
use socket_programming_c.Net.Setup.{Sockets, State, setup_client}
use socket_programming_c.Vote.Protocol.{VoteInfo, max_wire_size}
use socket_programming_c.Vote.DelimFramer.Reading.{get_next_msg_line}
use socket_programming_c.Vote.DelimFramer.Writing.{put_msg_written}
use socket_programming_c.Vote.Encoding.{request_text, encode}
use socket_programming_c.Vote.Encoding.Bounds.{
  Clean, request_text-Clean, encode-bounds, encode-encoded, encode-Clean,
}
use socket_programming_c.Vote.Decoding.Requests.{request, encode-request, length-request_text}
use socket_programming_c.Vote.Decoding.Responses.{response, decode-encode-response}
use socket_programming_c.Vote.Server.{
  Session, is_candidate, respond, session, processed, client_finished,
}
use socket_programming_c.Vote.Server.Words.{IsWord64, response_to, response_to_lem}
use socket_programming_c.Vote.Server.Answered.{
  is_candidate-IsInt, decoded, answered, session-request, session-ended,
}
use socket_programming_c.Vote.Client.{
  sending, decode_error, Link, vote_info, if_sent, send_request, print_response, receive_response,
  exchange, vote, main_vote_client,
}

-- What a connection of the server writes, once it was sent these bytes.
abbrev pub written_by : Run Session → Bytes
written_by (done s) = s.channel.written
written_by (exit_failure t) = []
written_by (exit_success t) = []
written_by undefined = []
written_by out_of_fuel = []

abbrev pub connected : Session → Bytes → Session
connected s sent = record s { channel = record s.channel { input = sent; written = [] } }

abbrev pub server_of : Session → Bytes → Bytes
server_of s sent = written_by (session (suc (suc (length sent))) (connected s sent))

response_to-response :
    (counts : List ℕ) (z : ℤ) (inq : Bool)
    → is_candidate z ≡ true
    → response_to counts z inq ≡ response (response_to counts z inq).count z inq
unfolding respond
response_to-response counts z true v = simp v refl
response_to-response counts z false v = simp v refl

module _ (k : Link) (z : ℤ) (inq : Bool) (valid : is_candidate z ≡ true) where
  send_request-text :
      length k.out_buf ≡ max_wire_size
      → 21 < k.room
      → send_request k (vote_info z inq)
        ≡ done (
          sending (length (request_text (request z inq))) inq z ∷ [],
          record {
            input = [];
            written = request_text (request z inq) ++ newline ∷ [];
            room = k.room - length (request_text (request z inq)) - 1;
          },
        )
  unfolding send_request if_sent
  send_request-text l r =
      let text : Bytes = request_text (request z inq) in
      let after : Bytes = 0 ∷ drop (suc (length text)) k.out_buf in
      let h : IsInt z = is_candidate-IsInt z valid in
      let short : length text ≤ 21 = length-request_text z inq h in
      let enc = encode-request z inq k.out_buf max_wire_size h (omega arith) (omega arith) in
      let (p, m, whole) =
        encode-bounds (request z inq) h (omega arith) k.out_buf max_wire_size (omega arith)
          (omega arith) (omega arith) (text ++ after) (length text) enc in
      let put =
        put_msg_written (text ++ after) (length text)
          (record { input = []; written = []; room = k.room }) (omega arith)
          (rw (take-append text after) (request_text-Clean (request z inq))) p (omega arith)
          (omega arith) in
      simp (enc, put, take-append text after) refl

  -- No response that the server encodes is understood by the client.
  receive_response-error :
      (count : ℕ) (out_buf buf : Bytes) (n : ℕ)
      → count < 2 ^ 64
      → length out_buf ≡ max_wire_size
      → Clean out_buf
      → encode (response count z inq) out_buf max_wire_size ≡ done (buf, n)
      → max_wire_size ≤ length k.in_buf
      → receive_response k (vote_info z inq) (take n buf ++ newline ∷ []) ≡ done (decode_error ∷ [])
  unfolding receive_response print_response
  receive_response-error count out_buf buf n w l c e long =
      let h : IsInt z = is_candidate-IsInt z valid in
      let v : VoteInfo = response count z inq in
      let (p, m, whole) =
        encode-bounds v h w out_buf max_wire_size (omega arith) (omega arith) (omega arith) buf n
          e in
      let line =
        All-take (λ c. c ≢ newline) n buf
          (encode-Clean v h w out_buf max_wire_size (omega arith) (omega arith) (omega arith) buf n
            e c) in
      let size : length (take n buf) ≡ n = omega (arith, length-take n buf) in
      let got =
        get_next_msg_line (take n buf) [] k.in_buf max_wire_size line (omega arith) (omega arith)
          long in
      simp
        (
          got,
          decode-encode-response count z inq w h out_buf max_wire_size (omega arith) (omega arith)
              (omega arith) buf n e,
        )
        refl

-- argv of the client, from argv[1] on.
abbrev pub arguments : Bytes → Bytes → Bytes → Bool → List Bytes
arguments server service candidate false = server ∷ service ∷ candidate ∷ []
arguments server service candidate true = server ∷ service ∷ candidate ∷ codes "I" ∷ []

module _ {A : Type 0} (sys : Sockets A) (getaddrinfo : Bytes → Bytes → Lookup A) (k : Link) where
  main-exchange :
      (st : State) (list : List A) (fd : ℕ) (server service candidate : Bytes) (inq : Bool)
      → is_candidate (atoi candidate) ≡ true
      → getaddrinfo server service ≡ found list
      → (setup_client sys list st).0 ≡ some fd
      → k.fdopen ≡ true
      → main_vote_client sys getaddrinfo k st (arguments server service candidate inq)
        ≡ exchange k (atoi candidate) inq
  unfolding main_vote_client vote get_addr_list str_eq
  main-exchange st list fd server service candidate true v g c o = simp (v, g, c, o) refl
  main-exchange st list fd server service candidate false v g c o = simp (v, g, c, o) refl

-- A server whose buffers and device are as they should be when it takes a connection.
abbrev pub IsReady : Session → Type 0
IsReady s =
    All IsWord64 s.counts
    × Clean s.out_buf
    × (length s.out_buf ≡ max_wire_size)
    × (43 < s.channel.room)
    × (s.in_buf ≡ replicate max_wire_size 0)

-- The bytes of a request.
abbrev pub wire : ℤ → Bool → Bytes
wire z inq = request_text (request z inq) ++ newline ∷ []

-- What the server was changed by in a connection with one request, whose response `Encode` put to
-- `buf`: the counters, the output and the bytes that were sent.
abbrev pub Answered : Session → ℤ → Bool → Bytes × ℕ → Session → Type 0
Answered s z inq (buf, n) s' =
    (s'.counts ≡ (respond s.counts (request z inq)).0)
    × (s'.log ≡ s.log ++ processed inq z (response_to s.counts z inq).count ∷ client_finished ∷ [])
    × (s'.channel.written ≡ s.channel.written ++ take n buf ++ newline ∷ [])

-- What the server does when it is sent a request, and what it makes of the response.
server-request :
    (s : Session) (z : ℤ) (inq : Bool)
    → IsReady s
    → is_candidate z ≡ true
    → (s' : Session) × (buf : Bytes) × (n : ℕ) × (encode
          (response (response_to s.counts z inq).count z inq)
          s.out_buf
          max_wire_size
        ≡ done (buf, n))
      × (session (suc (suc (length (wire z inq)))) (connected s (wire z inq)) ≡ done s')
      × Answered (connected s (wire z inq)) z inq (buf, n) s'
server-request s z inq (words, clean, out, room, inb) valid =
    let h : IsInt z = is_candidate-IsInt z valid in
    let (w, c, i, r) = response_to_lem s.counts z inq h words in
    let short : length (request_text (request z inq)) ≤ 21 = length-request_text z inq h in
    let e =
      encode-encoded (response (response_to s.counts z inq).count z inq) h w s.out_buf max_wire_size
        (omega arith) (omega arith) (omega arith) in
    let (tail, nul) =
      drop-replicate {A = ℕ} (length (request_text (request z inq))) max_wire_size 0
        (omega arith) in
    let fuel : ℕ = length (wire z inq) in
    let one =
      session-request (suc fuel) (connected s (wire z inq)) z inq [] tail _ _ h
        (words, clean, out, room) refl
        (rw inb (omega (arith, length-replicate {A = ℕ} max_wire_size 0))) (rw inb nul)
        (rw (response_to-response s.counts z inq valid) e) in
    let two =
      session-ended fuel (answered (decoded (connected s (wire z inq)) z inq [] tail) z inq _)
        refl in
    (_, _, _, e, one ∙ two, (refl, append_assoc s.log _ _, refl))

module _ {A : Type 0} (sys : Sockets A) (getaddrinfo : Bytes → Bytes → Lookup A) (k : Link) where
  module _ (st : State) (list : List A) (fd : ℕ) (server service candidate : Bytes) where
    -- A client whose calls succeed, connected to a server that is ready, with a valid candidate:
    -- the server counts the request and reports it, and the client cannot decode the response.
    pub main_vote_client-session :
        (inq : Bool) (s : Session)
        → is_candidate (atoi candidate) ≡ true
        → getaddrinfo server service ≡ found list
        → (setup_client sys list st).0 ≡ some fd
        → k.fdopen ≡ true
        → length k.out_buf ≡ max_wire_size
        → 21 < k.room
        → max_wire_size ≤ length k.in_buf
        → k.answer ≡ server_of s
        → IsReady s
        → (main_vote_client sys getaddrinfo k st (arguments server service candidate inq)
            ≡ done (
                sending (length (request_text (request (atoi candidate) inq))) inq (atoi candidate)
                ∷ decode_error
                ∷ []))
          × (s' : Session) × (buf : Bytes) × (n : ℕ) × (session
                (suc (suc (length (wire (atoi candidate) inq))))
                (connected s (wire (atoi candidate) inq))
              ≡ done s')
          × Answered (connected s (wire (atoi candidate) inq)) (atoi candidate) inq (buf, n) s'
    main_vote_client-session inq s valid look up fopen out room inb answer ready =
        let z : ℤ = atoi candidate in
        let (s', buf, n, e, run, (c, l, w)) = server-request s z inq ready valid in
        let (words, clean, size, much, zeros) = ready in
        let (fits, cand, kind, is_resp) =
          response_to_lem s.counts z inq (is_candidate-IsInt z valid) words in
        let received =
          receive_response-error k z inq valid _ s.out_buf buf n fits size clean e inb in
        let reply : k.answer (wire z inq) ≡ take n buf ++ newline ∷ [] =
          ap (λ (f : Bytes → Bytes). f (wire z inq)) answer ∙ ap written_by run ∙ w in
        (
          main-exchange sys getaddrinfo k st list fd server service candidate inq valid look up
                fopen
              ∙ unfold exchange in
                simp (send_request-text k z inq valid out room, reply, received) refl,
          s',
          buf,
          n,
          run,
          (c, l, w),
        )
