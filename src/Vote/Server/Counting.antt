-- ===== src/Vote/Server/Counting.antt =====
-- The counters of the vote server agree with what it reports, over all its connections.
use socket_programming_c.Prelude.{
  ℕ, suc, ◌+◌, ◌%◌, ◌^◌, ◌≤◌, ◌≡◌, refl, Bool, List, [], ◌∷◌, ◌++◌, arith, Bytes, ℤ,
  get_or-replicate, ◌∙◌, length, get_or, Bool-cases, inl, inr, if◌then◌else◌,
}
use socket_programming_c.Exits.{done, >>=-eq-done}
use socket_programming_c.Vote.Protocol.{VoteInfo, max_wire_size, max_candidate}
use socket_programming_c.Vote.DelimFramer.{Got}
use socket_programming_c.Vote.Encoding.{encode}
use socket_programming_c.Vote.Decoding.{Decoded, accepted, rejected, overrun}
use socket_programming_c.Vote.Server.{
  Session, Line, parse_error, put_error, processed, client_finished, respond, answer, handle,
  received, session, Arrival, client, accept_failed, fdopen_failed, opened, serve, init_counts,
}
use socket_programming_c.Vote.Server.Rounds.{session_induction}
use socket_programming_c.Vote.Server.Tally.{
  is_vote_for, votes, failures, votes-append, failures-append, Tallied, Counted, respond_lem,
  reply_log, respond-kind,
}

module _ (base : List ℕ) (c : ℕ) where
  module _ (counts counts' : List ℕ) (log : List Line) (inq : Bool) (z : ℤ) where
    module _ (t : Tallied base c counts log) (g : Counted counts counts' c inq z) where
      Tallied-processed : (n : ℕ) → Tallied base c counts' (log ++ processed inq z n ∷ [])
      Tallied-processed n = (
        t.0,
        g.0,
        omega (arith, t.2, failures-append log (processed inq z n ∷ [])),
        rw votes-append (ground (arith, t.3, g.1)),
      )

      Tallied-put_error : Tallied base c counts' (log ++ put_error ∷ [])
      Tallied-put_error = (
        (if is_vote_for c inq z then 1 else 0) + t.0,
        g.0,
        rw failures-append (ground (arith, t.2)),
        rw votes-append (ground (arith, t.3, g.1)),
      )

  Tallied-parse_error :
      (counts : List ℕ) (log : List Line)
      → Tallied base c counts log
      → Tallied base c counts (log ++ parse_error ∷ [])
  Tallied-parse_error counts log t =
      (t.0, t.1, rw failures-append (omega arith), rw votes-append (ground (arith, t.3)))

  Tallied-client_finished :
      (counts : List ℕ) (log : List Line)
      → Tallied base c counts log
      → Tallied base c counts (log ++ client_finished ∷ [])
  Tallied-client_finished counts log t =
      (t.0, t.1, rw failures-append (omega arith), rw votes-append (ground (arith, t.3)))

  module _ (h : c ≤ max_candidate) where
    Tallied-answer :
        (s : Session) (v : VoteInfo) (s' : Session) (again : Bool)
        → Tallied base c s.counts s.log
        → answer s v ≡ done (s', again)
        → Tallied base c s'.counts s'.log
    unfolding answer
    Tallied-answer s v s' again t e =
        let (counts, v') = respond s.counts v in
        let (encoded, _, r) = >>=-eq-done (encode v' s.out_buf max_wire_size) _ e in
        let (same, line) = reply_log (record s { counts = counts }) v' encoded s' again r in
        let (inq, z) = respond-kind s.counts v in
        let g : Counted s.counts counts c v'.is_inquiry v'.candidate =
          rw (inq, z) (respond_lem s.counts v c t.1 h) in
        elim line [
          | inl l ↦
              rw (same, l)
                (Tallied-processed s.counts counts s.log v'.is_inquiry v'.candidate t g v'.count)
          | inr l ↦
              rw (same, l) (Tallied-put_error s.counts counts s.log v'.is_inquiry v'.candidate t g)
        ]

    Tallied-handle :
        (s : Session) (d : Decoded (VoteInfo × Bytes)) (s' : Session) (again : Bool)
        → Tallied base c s.counts s.log
        → handle s d ≡ done (s', again)
        → Tallied base c s'.counts s'.log
    unfolding handle
    Tallied-handle s overrun s' again t e = cc
    Tallied-handle s (rejected v) s' again t e =
        let same : s'.counts ≡ s.counts = ground arith in
        let line : s'.log ≡ s.log ++ parse_error ∷ [] = ground arith in
        rw (same, line) (Tallied-parse_error s.counts s.log t)
    Tallied-handle s (accepted (v, in_buf)) s' again t e = elim (Bool-cases v.is_response) [
      | inl r ↦
          let same : s'.counts ≡ s.counts = ground arith in
          let line : s'.log ≡ s.log = ground arith in rw (same, line) t
      | inr r ↦ Tallied-answer (record s { in_buf = in_buf }) v s' again t (ground arith)
    ]

    Tallied-session :
        (fuel : ℕ) (s s' : Session)
        → Tallied base c s.counts s.log
        → session fuel s ≡ done s'
        → Tallied base c s'.counts s'.log
    Tallied-session =
        session_induction (λ s. Tallied base c s.counts s.log)
          (λ s got s' again t e. Tallied-received s got s' again t e)
          (λ s t. Tallied-client_finished s.counts s.log t) (λ s got t. t)
      where
        Tallied-received :
            (s : Session) (got : Got) (s' : Session) (again : Bool)
            → Tallied base c s.counts s.log
            → received s got ≡ done (s', again)
            → Tallied base c s'.counts s'.log
        Tallied-received s got s' again t e = unfold received in Tallied-handle _ _ s' again t e

    serve_lem :
        (arrivals : List Arrival) (counts counts' : List ℕ) (log log' : List Line)
        → Tallied base c counts log
        → serve arrivals counts log ≡ done (counts', log')
        → Tallied base c counts' log'
    unfolding serve
    serve_lem [] counts counts' log log' t e =
        let a : counts ≡ counts' = ground arith in
        let b : log ≡ log' = ground arith in rw (← a, ← b) t
    serve_lem (accept_failed reason ∷ more) counts counts' log log' t e = cc
    serve_lem (fdopen_failed reason ∷ more) counts counts' log log' t e = cc
    serve_lem (client input room in_buf out_buf ∷ more) counts counts' log log' t e =
        let s : Session = opened input room in_buf out_buf counts log in
        let (s', r, k) = >>=-eq-done (session (suc (length input)) s) _ e in
        serve_lem more s'.counts counts' s'.log log' (Tallied-session (suc (length input)) s s' t r)
          k

-- From zeroed counters and over any arrivals, if the server still runs behind them: the counter
-- of each valid candidate is the number of votes that were reported for it, modulo 2^64, and of
-- votes whose response could not be sent, of which there are no more than failures reported.
pub serve-counts :
    (arrivals : List Arrival) (counts : List ℕ) (log : List Line) (c : ℕ)
    → c ≤ max_candidate
    → serve arrivals init_counts [] ≡ done (counts, log)
    → (unsent : ℕ) × (unsent ≤ failures log) × (get_or counts c 0 ≡ (votes c log + unsent) % 2 ^ 64)
serve-counts arrivals counts log c h e =
    let start : Tallied init_counts c init_counts [] =
      (0, refl, omega arith, rw (get_or-replicate {A = ℕ} 1001 c 0) refl) in
    let t = serve_lem init_counts c h arrivals init_counts counts [] log start e in
    (t.0, t.2, t.3 ∙ rw (get_or-replicate {A = ℕ} 1001 c 0) (ground arith))
