-- ===== src/Net/Sigio/Echoed.antt =====
-- The signal handler of UDPEchoServer-SIGIO.c ends, and when it echoes everything.
use socket_programming_c.Prelude.{
  ℕ, zero, suc, ◌<◌, ◌≡◌, refl, ◌∙◌, ap, true, false, List, [], ◌∷◌, ◌++◌, append_assoc, append-nil,
  Option, none, some, arith, Bytes, length, take, ltb, ◌==◌, All,
}
use socket_programming_c.Exits.{done, exit_failure, exit_with_system_msg, Ends, Ends-bind, Ends-if}
use socket_programming_c.Net.Address.{
  SocketAddress, inet, inet6, unknown, swapped, shown, print_or_exit,
}
use socket_programming_c.Net.Sigio.{
  Incoming, datagram, socket_error, Echo, buf_size, Host, after_sendto, round, sigio_handler,
}
use socket_programming_c.Net.Sigio.Handler.{
  echoes, round-datagram, continue, handler-step, handler-empty, handler-error,
}

same-size : (n : ℕ) → (n == n) ≡ true
same-size n = ground arith

taken-some : (payload : Bytes) → 0 < length payload → ltb 0 (length (take buf_size payload)) ≡ true
taken-some [] p = absurd (omega arith)
taken-some (c ∷ payload) p = ground arith

module _ (h : Host) where
  shown-Ends : (port : ℕ) (o : Option Bytes) → Ends (shown (exit_failure []) port o)
  unfolding shown
  shown-Ends port none = λ e. cc
  shown-Ends port (some text) = λ e. cc

  print_or_exit-Ends : (a : SocketAddress) → Ends (print_or_exit h.inet_ntop a)
  unfolding print_or_exit
  print_or_exit-Ends (inet a port) = shown-Ends (swapped port) (h.inet_ntop false a)
  print_or_exit-Ends (inet6 a port) = shown-Ends (swapped port) (h.inet_ntop true a)
  print_or_exit-Ends unknown = λ e. cc

  after_sendto-Ends :
      (a : SocketAddress) (buf : Bytes) (queue : List Incoming) (sent : List Echo) (o : Option ℕ)
      → Ends (after_sendto h a buf queue sent o)
  unfolding after_sendto exit_with_system_msg
  after_sendto-Ends a buf queue sent none = λ e. cc
  after_sendto-Ends a buf queue sent (some n) = Ends-if (n == length buf) _ _ (λ e. cc) (λ e. cc)

  round-Ends :
      (a : SocketAddress) (payload : Bytes) (queue : List Incoming) (sent : List Echo)
      → Ends (round h (datagram a payload ∷ queue) sent)
  unfolding round
  round-Ends a payload queue sent =
      Ends-bind (print_or_exit h.inet_ntop a) _ (print_or_exit-Ends a)
        (λ text e. after_sendto-Ends a (take buf_size payload) queue sent _)

  -- The loop of the handler ends within one round more than there are datagrams waiting.
  pub sigio_handler-Ends :
      (fuel : ℕ) (queue : List Incoming) (sent : List Echo)
      → length queue < fuel
      → Ends (sigio_handler h fuel queue sent)
  sigio_handler-Ends zero queue sent l = absurd (omega arith)
  sigio_handler-Ends (suc fuel) [] sent l = rw handler-empty (λ e. cc)
  sigio_handler-Ends (suc fuel) (socket_error reason ∷ queue) sent l =
      rw handler-error (unfold exit_with_system_msg in λ e. cc)
  sigio_handler-Ends (suc fuel) (datagram a payload ∷ queue) sent l = rw handler-step (
      Ends-bind (round h (datagram a payload ∷ queue) sent) (continue h fuel)
        (round-Ends a payload queue sent)
        λ o m. rw (round-datagram h a payload queue sent o m) (
          Ends-if (ltb 0 (length (take buf_size payload))) _ _
            (sigio_handler-Ends fuel queue (sent ++ (a, take buf_size payload) ∷ []) (omega arith))
            (λ e. cc)))

  -- A datagram that is not empty, from an address that can be printed.
  abbrev pub IsEchoable : Incoming → Type 0
  IsEchoable (datagram a payload) =
      (0 < length payload) × (text : Bytes) × (print_or_exit h.inet_ntop a ≡ done text)
  IsEchoable (socket_error reason) = ⊥

  round-echoable :
      (a : SocketAddress) (payload : Bytes) (queue : List Incoming) (sent : List Echo)
      → ((n : ℕ) (buf : Bytes) → h.sendto n buf ≡ some (length buf))
      → 0 < length payload
      → (text : Bytes) × (print_or_exit h.inet_ntop a ≡ done text)
      → round h (datagram a payload ∷ queue) sent
        ≡ done (true, queue, sent ++ (a, take buf_size payload) ∷ [])
  unfolding round after_sendto
  round-echoable a payload queue sent ok p (text, printed) =
      simp
        (
          printed,
          ok (length sent) (take buf_size payload),
          same-size (length (take buf_size payload)),
          taken-some payload p,
        )
        refl

  -- If every datagram that waits is not empty, can be printed and is sent whole, the handler
  -- echoes them all, each cut to 100 bytes, in the order in which they wait, and leaves none.
  pub sigio_handler-echoes :
      (queue : List Incoming) (sent : List Echo)
      → ((n : ℕ) (buf : Bytes) → h.sendto n buf ≡ some (length buf))
      → All IsEchoable queue
      → sigio_handler h (suc (length queue)) queue sent ≡ done ([], sent ++ echoes queue)
  sigio_handler-echoes [] sent ok all = rw (append-nil sent) (handler-empty h 0 sent)
  sigio_handler-echoes (socket_error reason ∷ queue) sent ok all = absurd all.0
  sigio_handler-echoes (datagram a payload ∷ queue) sent ok ((p, text, printed), all) =
      let more = round-echoable a payload queue sent ok p (text, printed) in
      let rest = sigio_handler-echoes queue (sent ++ (a, take buf_size payload) ∷ []) ok all in
      handler-step h (suc (length queue)) (datagram a payload ∷ queue) sent
      ∙ rw more (
          rest
          ∙ ap (λ s. done ([], s))
              (append_assoc sent ((a, take buf_size payload) ∷ []) (echoes queue)))
