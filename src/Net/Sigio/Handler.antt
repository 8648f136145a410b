-- ===== src/Net/Sigio/Handler.antt =====
-- The signal handler of UDPEchoServer-SIGIO.c, run on what waits.
use socket_programming_c.Prelude.{
  ℕ, zero, suc, ◌≡◌, ◌⊎◌, refl, sym, ◌∙◌, ap, Bool, true, false, List, [], ◌∷◌, ◌++◌, append_assoc,
  append-nil, Option, none, some, arith, Bytes, codes, length, take, ltb, if◌then◌else◌, All,
  All-append, Bool-cases, inl, inr,
}
use mathlib.Core.Path.{subst}
use socket_programming_c.Exits.{Run, done, exit_with_system_msg, done-injective, >>=-eq-done, ◌>>=◌}
use socket_programming_c.Net.Address.{SocketAddress, shown, print_or_exit}
use socket_programming_c.Net.Sigio.{
  Incoming, datagram, socket_error, Echo, buf_size, Host, Round, after_sendto, round, sigio_handler,
}

-- What a datagram is echoed as.
abbrev pub echoes : List Incoming → List Echo
echoes [] = []
echoes (datagram a payload ∷ queue) = (a, take buf_size payload) ∷ echoes queue
echoes (socket_error reason ∷ queue) = echoes queue

abbrev pub IsDatagram : Incoming → Type 0
IsDatagram (datagram a payload) = Unit
IsDatagram (socket_error reason) = ⊥

pub echoes-append :
    (queue more : List Incoming) → echoes (queue ++ more) ≡ echoes queue ++ echoes more
echoes-append [] more = refl
echoes-append (datagram a payload ∷ queue) more =
    ap (λ l. (a, take buf_size payload) ∷ l) (echoes-append queue more)
echoes-append (socket_error reason ∷ queue) more = echoes-append queue more

-- An empty datagram was echoed last.
abbrev pub EndsEmpty : List Echo → Type 0
EndsEmpty sent = (before : List Echo) × (a : SocketAddress) × (sent ≡ before ++ (a, []) ∷ [])

done-exit {ℓ} :
    {A : Type ℓ} {a : A} (msg reason : Bytes) → done a ≡ exit_with_system_msg msg reason → ⊥
unfolding exit_with_system_msg
done-exit msg reason e = cc

length-zero : (s : Bytes) → ltb 0 (length s) ≡ false → s ≡ []
length-zero [] e = refl
length-zero (c ∷ s) e = absurd (ground arith)

-- From one queue to another, by echoing the datagrams in front.
abbrev pub Handled : List Incoming → List Echo → List Incoming → List Echo → Type 0
Handled queue sent queue' sent' =
    (handled : List Incoming) × All IsDatagram handled
    × (queue ≡ handled ++ queue')
    × (sent' ≡ sent ++ echoes handled)

pub Handled-trans :
    (q q' q'' : List Incoming) (s s' s'' : List Echo)
    → Handled q s q' s'
    → Handled q' s' q'' s''
    → Handled q s q'' s''
Handled-trans q q' q'' s s' s'' (f, all, e, w) (g, all', e', w') = (
  f ++ g,
  All-append IsDatagram f g all all',
  e ∙ ap (λ l. f ++ l) e' ∙ sym (append_assoc f g q''),
  w'
      ∙ ap (λ l. l ++ echoes g) w
      ∙ append_assoc s (echoes f) (echoes g)
      ∙ ap (λ l. s ++ l) (sym (echoes-append f g)),
)

stopped :
    (again : Bool) (queue : List Incoming) (sent : List Echo)
    → again ≡ false
    → (again ≡ true) ⊎ (queue ≡ []) ⊎ EndsEmpty sent
    → (queue ≡ []) ⊎ EndsEmpty sent
stopped again queue sent e (inl t) = absurd (cc)
stopped again queue sent e (inr why) = why

module _ (h : Host) where
  after_sendto-done :
      (a : SocketAddress) (buf : Bytes) (queue : List Incoming) (sent : List Echo) (o : Option ℕ)
      (r : Round)
      → after_sendto h a buf queue sent o ≡ done r
      → r ≡ (ltb 0 (length buf), queue, sent ++ (a, buf) ∷ [])
  unfolding after_sendto exit_with_system_msg
  after_sendto-done a buf queue sent none r e = absurd (cc)
  after_sendto-done a buf queue sent (some n) r e = ground arith

  -- A round that succeeds on a datagram.
  pub round-datagram :
      (a : SocketAddress) (payload : Bytes) (queue : List Incoming) (sent : List Echo) (r : Round)
      → round h (datagram a payload ∷ queue) sent ≡ done r
      → r ≡ (ltb 0 (length (take buf_size payload)), queue, sent ++ (a, take buf_size payload) ∷ [])
  unfolding round
  round-datagram a payload queue sent r e =
      let (text, shown, rest) = >>=-eq-done (print_or_exit h.inet_ntop a) _ e in
      after_sendto-done a (take buf_size payload) queue sent _ r rest

  -- What follows a round.
  abbrev pub continue : ℕ → Round → Run (List Incoming × List Echo)
  continue fuel (again, queue, sent) =
      if again then sigio_handler h fuel queue sent else done (queue, sent)

  pub handler-step :
      (fuel : ℕ) (queue : List Incoming) (sent : List Echo)
      → sigio_handler h (suc fuel) queue sent ≡ (round h queue sent >>= continue fuel)
  unfolding sigio_handler
  handler-step fuel queue sent = refl

  pub handler-empty :
      (fuel : ℕ) (sent : List Echo) → sigio_handler h (suc fuel) [] sent ≡ done ([], sent)
  unfolding sigio_handler round
  handler-empty fuel sent = refl

  pub handler-error :
      (fuel : ℕ) (reason : Bytes) (queue : List Incoming) (sent : List Echo)
      → sigio_handler h (suc fuel) (socket_error reason ∷ queue) sent
        ≡ exit_with_system_msg (codes "recvfrom()") reason
  unfolding sigio_handler round exit_with_system_msg
  handler-error fuel reason queue sent = refl

  round-empty : (sent : List Echo) → round h [] sent ≡ done (false, [], sent)
  unfolding round
  round-empty sent = refl

  round-error :
      (reason : Bytes) (queue : List Incoming) (sent : List Echo)
      → round h (socket_error reason ∷ queue) sent
        ≡ exit_with_system_msg (codes "recvfrom()") reason
  unfolding round exit_with_system_msg
  round-error reason queue sent = refl

  -- What a round that succeeds has done: it echoed the first datagram, if there was one, and the
  -- loop goes on unless there was none or it was empty.
  abbrev AfterRound : List Incoming → List Echo → Round → Type 0
  AfterRound queue sent (again, queue', sent') =
      Handled queue sent queue' sent' × ((again ≡ true) ⊎ (queue' ≡ []) ⊎ EndsEmpty sent')

  echoed-once :
      (a : SocketAddress) (payload : Bytes) (queue : List Incoming) (sent : List Echo)
      → AfterRound
          (datagram a payload ∷ queue)
          sent
          (ltb 0 (length (take buf_size payload)), queue, sent ++ (a, take buf_size payload) ∷ [])
  echoed-once a payload queue sent =
      let buf : Bytes = take buf_size payload in
      (
        (datagram a payload ∷ [], (tt, tt), refl, refl),
        elim (Bool-cases (ltb 0 (length buf))) [
          | inl more ↦ inl more
          | inr last ↦ inr (inr (sent, a, ap (λ b. sent ++ (a, b) ∷ []) (length-zero buf last)))
        ],
      )

  pub round-Handled :
      (queue : List Incoming) (sent : List Echo) (r : Round)
      → round h queue sent ≡ done r
      → AfterRound queue sent r
  round-Handled [] sent r e =
      subst (AfterRound [] sent) (done-injective (sym (round-empty sent) ∙ e))
        (([], tt, refl, sym (append-nil sent)), inr (inl refl))
  round-Handled (socket_error reason ∷ queue) sent r e =
      absurd (done-exit (codes "recvfrom()") reason (sym e ∙ round-error reason queue sent))
  round-Handled (datagram a payload ∷ queue) sent r e =
      subst (AfterRound (datagram a payload ∷ queue) sent)
        (sym (round-datagram a payload queue sent r e)) (echoed-once a payload queue sent)

  -- A handler that returns has echoed the datagrams in front, and behind them nothing waits, or
  -- the last of them was empty.
  pub sigio_handler-Handled :
      (fuel : ℕ) (queue : List Incoming) (sent : List Echo) (queue' : List Incoming)
      (sent' : List Echo)
      → sigio_handler h fuel queue sent ≡ done (queue', sent')
      → Handled queue sent queue' sent' × ((queue' ≡ []) ⊎ EndsEmpty sent')
  unfolding sigio_handler
  sigio_handler-Handled zero queue sent queue' sent' e = absurd (cc)
  sigio_handler-Handled (suc fuel) queue sent queue' sent' e =
      let ((again, q, s), m, rest) = >>=-eq-done (round h queue sent) (continue fuel) e in
      let (step, why) = round-Handled queue sent (again, q, s) m in
      elim (Bool-cases again) [
        | inl more ↦
            let (steps, why') = sigio_handler-Handled fuel q s queue' sent' (rw more at rest) in
            (Handled-trans queue q queue' sent s sent' step steps, why')
        | inr last ↦
            let same : (q, s) ≡ (queue', sent') = done-injective (rw last at rest) in
            subst
              (λ (r : List Incoming × List Echo).
                Handled queue sent r.0 r.1 × ((r.0 ≡ []) ⊎ EndsEmpty r.1))
              same (step, stopped again q s last why)
      ]
