-- ===== src/Vote/Server/Main.antt =====
-- main of the vote server from its start on, and the function `response`, which nothing calls.
use socket_programming_c.Prelude.{
  ℕ, ◌+◌, ◌%◌, ◌^◌, ◌≤◌, ◌≡◌, refl, Bool, true, false, List, [], Option, none, some, arith, Bytes,
  codes, ℤ, pos, is_neg, residue, to_int, get_or, ◌==◌, if◌then◌else◌, Bool-cases, inl, inr,
}
use mathlib.Core.Path.{subst}
use socket_programming_c.Exits.{
  Run, done, exit_with_system_msg, exit_with_user_msg, done-injective, >>=-eq-done, ◌>>=◌,
  Keeps-done,
}
use socket_programming_c.CLib.Stdio.{Stream}
use socket_programming_c.Net.Lookup.{Lookup}
use socket_programming_c.Net.Setup.{Sockets, State}
use socket_programming_c.Net.Setup.Ledger.{Open}
use socket_programming_c.Net.Setup.Servers.{ServerSocket, Listens}
use socket_programming_c.Net.Setup.Named.{setup_service, setup_service-Keeps}
use socket_programming_c.Vote.Protocol.{VoteInfo, max_candidate, max_wire_size}
use socket_programming_c.Vote.DelimFramer.{put_msg}
use socket_programming_c.Vote.Encoding.{encode}
use socket_programming_c.Vote.Server.{
  Session, Line, put_error, is_candidate, respond, say, reply, answer, Arrival, init_counts, serve,
}
use socket_programming_c.Vote.Server.Tally.{votes, failures}
use socket_programming_c.Vote.Server.Counting.{serve-counts}

-- What `response` does with what `PutMsg` returns.
abbrev pub responded : Session → VoteInfo → ℤ × Stream → Bytes → Session × VoteInfo
responded s v (sent, channel) out_buf =
    let s' : Session = record s { channel = channel; out_buf = out_buf } in
    (if is_neg sent then say s' put_error else s', v)

-- response
unfoldable pub response : Session → VoteInfo → Run (Session × VoteInfo)
response s v =
    let (counts, v') = respond s.counts v in
    if is_candidate v.candidate
    then (do
      (out_buf, m_size) ← encode v' s.out_buf max_wire_size
      put ← put_msg out_buf (residue (2 ^ 64) (to_int (pos m_size))) s.channel
      done (responded (record s { counts = counts }) v' put out_buf))
    else done (s, v')

module _ {A : Type 0} (sys : Sockets A) where
  -- The accepting loop: `accept` fails with EBADF on -1, which main does not test for.
  unfoldable pub accepting : List Arrival → Option ℕ × State → Run (State × List ℕ × List Line)
  accepting arrivals (none, st) =
      exit_with_system_msg (codes "accept() failed") (codes "Bad file descriptor")
  accepting arrivals (some fd, st) = do
    (counts, log) ← serve arrivals init_counts []
    done (st, counts, log)

  -- main, with what the clients bring.
  unfoldable pub main_vote_server :
      ℕ → Lookup A → State → List Arrival → Run (State × List ℕ × List Line)
  main_vote_server argc service st arrivals =
      if argc == 2
      then (do sock ← setup_service sys service st; accepting arrivals sock)
      else exit_with_user_msg (codes "Parameter(s)") (codes "<Service/Port>")

  -- Each valid candidate has the votes that were reported, and some that were not sent.
  abbrev pub CountsVotes : List ℕ → List Line → Type 0
  CountsVotes counts log =
      (c : ℕ)
      → c ≤ max_candidate
      → (unsent : ℕ) × (unsent ≤ failures log)
        × (get_or counts c 0 ≡ (votes c log + unsent) % 2 ^ 64)

  abbrev Runs : State × List ℕ × List Line → Type 0
  Runs (st, counts, log) = ((fd : ℕ) × Listens fd st.log) × CountsVotes counts log

  accepting-Runs :
      (arrivals : List Arrival) (sock : Option ℕ × State) (r : State × List ℕ × List Line)
      → ServerSocket sock
      → accepting arrivals sock ≡ done r
      → Runs r
  unfolding accepting exit_with_system_msg
  accepting-Runs arrivals (none, st) r h e = absurd (cc)
  accepting-Runs arrivals (some fd, st) r h e =
      let ((counts, log), run, same) = >>=-eq-done (serve arrivals init_counts []) _ e in
      subst Runs (done-injective same) ((fd, h), λ c l. serve-counts arrivals counts log c l run)

  -- If main was started with one argument and with nothing open, and still runs behind these
  -- arrivals, then it has a socket that is bound and listens and no other, and the counter of
  -- each valid candidate is the number of votes that were reported for it, modulo 2^64, and of
  -- votes whose response could not be sent, of which there are no more than failures reported.
  pub main_vote_server-done :
      (argc : ℕ) (service : Lookup A) (st st' : State) (arrivals : List Arrival) (counts : List ℕ)
      (log : List Line)
      → Open [] st.log
      → main_vote_server argc service st arrivals ≡ done (st', counts, log)
      → ((fd : ℕ) × Listens fd st'.log) × CountsVotes counts log
  unfolding main_vote_server exit_with_user_msg
  main_vote_server-done argc service st st' arrivals counts log h e =
      elim (Bool-cases (argc == 2)) [
        | inl two ↦
            let (sock, set, rest) =
              >>=-eq-done (setup_service sys service st) (accepting arrivals) (rw two at e) in
            accepting-Runs arrivals sock (st', counts, log)
              (Keeps-done ServerSocket (setup_service sys service st) sock
                (setup_service-Keeps sys service st h) set)
              rest
        | inr other ↦ absurd (ground (arith, e))
      ]

-- What main and `response` leave of the session is the same.
abbrev pub SameBut : Session → Session → Type 0
SameBut s t = (s.counts ≡ t.counts) × (s.channel ≡ t.channel) × (s.out_buf ≡ t.out_buf)

replied-SameBut :
    (b : Bool) (s s' : Session) (line line' : Line) (again : Bool)
    → if◌then◌else◌ {A = Run (Session × Bool)} b
        (done (say s line, false))
        (done (say s line', true))
      ≡ done (s', again)
    → SameBut (if b then say s line else s) s'
replied-SameBut true s s' line line' again e =
    subst (λ (r : Session × Bool). SameBut (say s line) r.0) (done-injective e) (refl, refl, refl)
replied-SameBut false s s' line line' again e =
    subst (λ (r : Session × Bool). SameBut s r.0) (done-injective e) (refl, refl, refl)

-- For a request whose candidate is valid `response` does to the counters, the stream and the
-- output buffer what main does, if main's part returns.
pub response-answer :
    (s : Session) (v : VoteInfo) (s' : Session) (again : Bool)
    → is_candidate v.candidate ≡ true
    → answer s v ≡ done (s', again)
    → (t : Session) × (response s v ≡ done (t, (respond s.counts v).1)) × SameBut t s'
unfolding answer response reply
response-answer s v s' again c e =
    let ((buf, n), en, rest) =
      >>=-eq-done (encode (respond s.counts v).1 s.out_buf max_wire_size) _ e in
    let (put, pe, last) =
      >>=-eq-done (put_msg buf (residue (2 ^ 64) (to_int (pos n))) s.channel) _ rest in
    let s1 : Session = record s {
      counts = (respond s.counts v).0;
      channel = put.1;
      out_buf = buf;
    } in
    (
      (responded (record s { counts = (respond s.counts v).0 }) (respond s.counts v).1 put buf).0,
      simp (c, en, pe) refl,
      replied-SameBut (is_neg put.0) s1 s' put_error _ again last,
    )
