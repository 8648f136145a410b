-- ===== src/Vote/Server/Rounds.antt =====
-- A rule for what holds behind every round of a connection.
use socket_programming_c.Prelude.{
  ℕ, zero, suc, ◌≡◌, Bool, true, false, Bool-cases, inl, inr, is_positive, arith, if◌then◌else◌,
}
use socket_programming_c.Exits.{done, >>=-eq-done}
use socket_programming_c.Vote.Protocol.{max_wire_size}
use socket_programming_c.Vote.DelimFramer.{Got, get_next_msg}
use socket_programming_c.Vote.Server.{Session, client_finished, received, session, say}

-- The session once `GetNextMsg` has stored to its buffer.
abbrev pub filled : Session → Got → Session
filled s got = record s { channel = record s.channel { input = got.input }; in_buf = got.buf }

module _ (P : Session → Type 0) where
  module _
      (step : (s : Session) (got : Got) (s' : Session) (again : Bool)
        → P s
        → received s got ≡ done (s', again)
        → P s')
      (close : (s : Session) → P s → P (say s client_finished))
      (fill : (s : Session) (got : Got) → P s → P (filled s got)) where
    again-P :
        (fuel : ℕ) (s s' : Session) (again : Bool)
        → ((s' : Session) → session fuel s ≡ done s' → P s')
        → P s
        → (if again then session fuel s else done (say s client_finished)) ≡ done s'
        → P s'
    again-P fuel s s' true go p e = go s' e
    again-P fuel s s' false go p e =
        let l : say s client_finished ≡ s' = ground arith in rw l at (close s p)

    pub session_induction : (fuel : ℕ) (s s' : Session) → P s → session fuel s ≡ done s' → P s'
    unfolding session
    session_induction zero s s' p e = cc
    session_induction (suc fuel) s s' p e =
        let (got, _, r) = >>=-eq-done (get_next_msg s.channel.input s.in_buf max_wire_size) _ e in
        elim (Bool-cases (is_positive got.count)) [
          | inl q ↦
              let ((s'', again), st, l) = >>=-eq-done (received s got) _ (rw q at r) in
              again-P fuel s'' s' again
                (λ u. session_induction fuel s'' u (step s got s'' again p st))
                (step s got s'' again p st) l
          | inr q ↦
              let l : say (filled s got) client_finished ≡ s' = ground arith in
              rw l at (close (filled s got) (fill s got p))
        ]
