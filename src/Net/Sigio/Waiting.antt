-- ===== src/Net/Sigio/Waiting.antt =====
-- What can wait at the socket of UDPEchoServer-SIGIO.c while nothing is going to read it.
use socket_programming_c.Prelude.{
  ◌<◌, ◌≡◌, ◌⊎◌, inl, inr, refl, sym, ◌∙◌, ap, true, false, List, [], ◌∷◌, ◌++◌, append_assoc,
  append-nil, arith, Bytes, length, take, All, All-append_left, All-append_right, some,
}
use socket_programming_c.Exits.{done}
use socket_programming_c.Net.Address.{SocketAddress, print_or_exit}
use socket_programming_c.Net.Sigio.{
  Incoming, datagram, socket_error, Echo, buf_size, Host, round, after_sendto, Server, Step, arrive,
  signal, handle, started, Steps, none_made, one_more,
}
use socket_programming_c.Net.Sigio.Handler.{
  echoes, EndsEmpty, Handled, Handled-trans, round-Handled,
}

-- Nothing waits, or it is going to be read, or an empty datagram was the last that was echoed.
abbrev pub Attended : Server → Type 0
Attended s = (s.queue ≡ []) ⊎ (s.pending ≡ true) ⊎ (s.running ≡ true) ⊎ EndsEmpty s.sent

-- Of what arrived, the first part was echoed and the rest waits.
abbrev pub Kept : List Incoming → Server → Type 0
Kept arrived s = Handled arrived [] s.queue s.sent

-- What arrived on the way.
unfoldable pub arrivals : {h : Host} {s t : Server} → Steps h s t → List Incoming
arrivals none_made = []
arrivals (one_more r (arrive d)) = arrivals r ++ d ∷ []
arrivals (one_more r (signal p q)) = arrivals r
arrivals (one_more r (handle p q)) = arrivals r

module _ {h : Host} where
  Step-Attended : {s t : Server} → Step h s t → Attended s → Attended t
  Step-Attended (arrive d) w = inr (inl refl)
  Step-Attended (signal p q) w = inr (inr (inl refl))
  Step-Attended {s} (handle {again} {queue} {sent} run e) w =
      why (round-Handled h s.queue s.sent (again, queue, sent) e).1
    where
      why :
          (again ≡ true) ⊎ (queue ≡ []) ⊎ EndsEmpty sent
          → Attended (record s { queue = queue; sent = sent; running = again })
      why (inl more) = inr (inr (inl more))
      why (inr (inl none)) = inl none
      why (inr (inr last)) = inr (inr (inr last))

  -- However datagrams, signals and rounds of the handler follow one another, a datagram that
  -- waits is going to be read, since a SIGIO is pending or the handler runs, unless the last
  -- datagram that was echoed is an empty one.
  pub Steps-Attended : {s : Server} → Steps h started s → Attended s
  Steps-Attended none_made = inl refl
  Steps-Attended (one_more r st) = Step-Attended st (Steps-Attended r)

  -- What was sent are the echoes of the datagrams that arrived first, in their order, and the
  -- others wait: none is lost, echoed twice or out of order.
  pub Steps-Kept : {s : Server} (r : Steps h started s) → Kept (arrivals r) s
  unfolding arrivals
  Steps-Kept none_made = ([], tt, refl, refl)
  Steps-Kept (one_more {t} r (arrive d)) =
      let (f, all, e, w) = Steps-Kept r in
      (f, all, ap (λ l. l ++ d ∷ []) e ∙ append_assoc f t.queue (d ∷ []), w)
  Steps-Kept (one_more r (signal p q)) = Steps-Kept r
  Steps-Kept (one_more {t} r (handle {again} {queue} {sent} run e)) =
      Handled-trans (arrivals r) t.queue queue [] t.sent sent (Steps-Kept r)
        (round-Handled h t.queue t.sent (again, queue, sent) e).0

-- It holds a byte at least, if it is a datagram.
abbrev pub IsFilled : Incoming → Type 0
IsFilled (datagram a payload) = 0 < length payload
IsFilled (socket_error reason) = Unit

abbrev HasBytes : Echo → Type 0
HasBytes (a, buf) = 0 < length buf

taken-some : (payload : Bytes) → 0 < length payload → 0 < length (take buf_size payload)
taken-some [] p = p
taken-some (c ∷ payload) p = omega arith

echoes-HasBytes : (queue : List Incoming) → All IsFilled queue → All HasBytes (echoes queue)
echoes-HasBytes [] h = tt
echoes-HasBytes (datagram a payload ∷ queue) (p, h) =
    (taken-some payload p, echoes-HasBytes queue h)
echoes-HasBytes (socket_error reason ∷ queue) (p, h) = echoes-HasBytes queue h

no-EndsEmpty : (sent : List Echo) → All HasBytes sent → EndsEmpty sent → ⊥
no-EndsEmpty sent h (before, a, e) =
    let (p, u) = All-append_right HasBytes before ((a, []) ∷ []) (rw e at h) in omega arith

-- If no empty datagram arrives, then whenever no SIGIO is pending and the handler does not run,
-- everything that arrived was echoed, in the order of arrival, and nothing waits.
pub Steps-quiet :
    {h : Host} {s : Server} (r : Steps h started s)
    → All IsFilled (arrivals r)
    → s.pending ≡ false
    → s.running ≡ false
    → (s.queue ≡ []) × (s.sent ≡ echoes (arrivals r))
Steps-quiet {h} {s} r filled p q =
    let (f, all, e, w) = Steps-Kept r in
    let bytes : All HasBytes s.sent =
      rw w (echoes-HasBytes f (All-append_left IsFilled f s.queue (rw e at filled))) in
    let none : s.queue ≡ [] = nothing_waits (Steps-Attended r) p q bytes in
    (none, w ∙ ap echoes (sym (e ∙ ap (λ l. f ++ l) none ∙ append-nil f)))
  where
    nothing_waits :
        Attended s → s.pending ≡ false → s.running ≡ false → All HasBytes s.sent → s.queue ≡ []
    nothing_waits (inl none) p q b = none
    nothing_waits (inr (inl pend)) p q b = absurd (cc)
    nothing_waits (inr (inr (inl run))) p q b = absurd (cc)
    nothing_waits (inr (inr (inr empty))) p q b = absurd (no-EndsEmpty s.sent b empty)

round-empty_datagram :
    (h : Host) (a : SocketAddress) (text : Bytes) (queue : List Incoming)
    → print_or_exit h.inet_ntop a ≡ done text
    → h.sendto 0 [] ≡ some 0
    → round h (datagram a [] ∷ queue) [] ≡ done (false, queue, (a, []) ∷ [])
unfolding round after_sendto
round-empty_datagram h a text queue printed sent = simp (printed, sent) refl

-- A datagram that arrives together with an empty one waits with no SIGIO pending and no handler
-- running, if the address of the empty one can be printed and it can be echoed.
pub Steps_starved :
    (h : Host) (a : SocketAddress) (text : Bytes) (d : Incoming)
    → print_or_exit h.inet_ntop a ≡ done text
    → h.sendto 0 [] ≡ some 0
    → Steps h started
        (record { queue = d ∷ []; sent = (a, []) ∷ []; pending = false; running = false })
Steps_starved h a text d printed sent =
    one_more
      (one_more (one_more (one_more none_made (arrive (datagram a []))) (arrive d))
        (signal refl refl))
      (handle refl (round-empty_datagram h a text (d ∷ []) printed sent))
