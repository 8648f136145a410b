-- ===== src/Poll/Server1/Sender.antt =====
-- To whom the first poll server sends.
use socket_programming_c.Prelude.{
  ℕ, zero, suc, ◌≡◌, ◌≢◌, refl, sym, ap, ◌∙◌, true, false, List, [], ◌∷◌, ◌++◌, append_assoc,
  append-nil, some, arith, Bytes, get_elem?, replicate, ◌==◌,
}
use socket_programming_c.Calls.{bytes}
use socket_programming_c.Exits.{done}
use socket_programming_c.Poll.Table.{Pollfd}
use socket_programming_c.Poll.Server2.{Kernel, Event, echoed, World, called}
use socket_programming_c.Poll.Server1.{send_to, broadcast, handle_received, visit}

abbrev pub sent : World → List Event → World
sent w events = record w { log = w.log ++ events }

send_to-sender :
    (k : Kernel) (listener i : ℕ) (buf : Bytes) (w : World) (p : Pollfd)
    → get_elem? w.table.pfds i ≡ some p
    → p.fd ≢ listener
    → send_to k listener i buf w ≡ done (sent w (echoed p.fd buf ∷ []))
unfolding send_to
send_to-sender k listener i buf w p e n =
    let other : (p.fd == listener) ≡ false = ground arith in rw (e, other) refl

pub broadcast-sender :
    (k : Kernel) (listener rounds i : ℕ) (buf : Bytes) (w : World) (p : Pollfd)
    → get_elem? w.table.pfds i ≡ some p
    → p.fd ≢ listener
    → broadcast k listener rounds i buf w ≡ done (sent w (replicate rounds (echoed p.fd buf)))
unfolding broadcast
broadcast-sender k listener zero i buf w p e n =
    ap (λ (l : List Event). done (record w { log = l })) (sym (append-nil w.log))
broadcast-sender k listener (suc rounds) i buf w p e n =
    rw (send_to-sender k listener i buf w p e n) (
      broadcast-sender k listener rounds i buf (sent w (echoed p.fd buf ∷ [])) p e n
      ∙ ap (λ (l : List Event). done (record w { log = l }))
          (append_assoc w.log (echoed p.fd buf ∷ []) (replicate rounds (echoed p.fd buf))))

-- What a client says, when its entry is ready, is sent to that client itself, as often as there
-- are entries, and to no other.
pub visit-sender :
    (k : Kernel) (listener i : ℕ) (w : World) (p : Pollfd) (c : ℕ) (buf : Bytes)
    → get_elem? w.table.pfds i ≡ some p
    → p.revents ≡ true
    → p.fd ≢ listener
    → k.recv w.calls p.fd ≡ bytes c buf
    → visit k listener i w
      ≡ done (sent (called w) (replicate w.table.fd_count (echoed p.fd (c ∷ buf))))
unfolding visit handle_received
visit-sender k listener i w p c buf e r n g =
    let other : (p.fd == listener) ≡ false = ground arith in
    simp (e, r, other, g)
      (broadcast-sender k listener w.table.fd_count i (c ∷ buf) (called w) p e n)
