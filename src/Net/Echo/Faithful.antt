-- ===== src/Net/Echo/Faithful.antt =====
-- What the loops of the echo servers send, and that they are one another's equals.
use socket_programming_c.Prelude.{
  ℕ, ◌+◌, ◌≡◌, refl, sym, ap, ◌∙◌, Bool, true, false, List, [], ◌∷◌, ◌++◌, append_assoc, append-nil,
  Option, none, some, arith, Bytes, codes, length, ◌==◌, if◌then◌else◌,
}
use socket_programming_c.Calls.{Received, failed, hung_up, bytes}
use socket_programming_c.Exits.{Run, done, exit_with_system_msg, exit_with_user_msg}
use socket_programming_c.Net.Echo.{
  Peer, check_sent, client_rounds, handle_client, echo_rounds, first_round, echo,
}

rounds_agree :
    (p : Peer) (n : ℕ) (out : Bytes) (r : Received) (more : List Received)
    → echo_rounds p (codes "send() failed") n out r more ≡ client_rounds p n out (r ∷ more)
unfolding echo_rounds client_rounds
rounds_agree p n out failed more = refl
rounds_agree p n out hung_up more = refl
rounds_agree p n out (bytes c buf) [] = refl
rounds_agree p n out (bytes c buf) (r ∷ more) =
    ap (check_sent p (codes "send() failed") n (c ∷ buf) (p.send n (c ∷ buf)))
      (rounds_agree p (n + 1) (out ++ c ∷ buf) r more)

-- The loop that reads at its head and the one that reads before it and at its end do the same
-- with every connection, errors included.
pub echo-handle_client : (p : Peer) → echo p ≡ handle_client p
unfolding echo handle_client
echo-handle_client p = by_list p.received
  where
    by_list : (l : List Received) → first_round p (codes "send() failed") l ≡ client_rounds p 0 [] l
    by_list [] = unfold client_rounds in refl
    by_list (r ∷ more) = rounds_agree p 0 [] r more

-- What the client has sent until it hung up.
abbrev pub said : List Received → Bytes
said [] = []
said (failed ∷ more) = []
said (hung_up ∷ more) = []
said (bytes c buf ∷ more) = (c ∷ buf) ++ said more

-- No `recv` failed before the client hung up.
abbrev pub Intact : List Received → Type 0
Intact [] = Unit
Intact (failed ∷ more) = ⊥
Intact (hung_up ∷ more) = Unit
Intact (bytes c buf ∷ more) = Intact more

-- `send` takes all of every chunk.
abbrev pub SendsAll : Peer → Type 0
SendsAll p = (n : ℕ) (chunk : Bytes) → p.send n chunk ≡ some (length chunk)

pub check_sent-done :
    (p : Peer) (msg : Bytes) (n : ℕ) (chunk : Bytes) (o : Option ℕ) (next : Run Bytes) (out : Bytes)
    → check_sent p msg n chunk o next ≡ done out
    → next ≡ done out
unfolding exit_with_system_msg exit_with_user_msg
check_sent-done p msg n chunk none next out h = absurd (cc)
check_sent-done p msg n chunk (some sent) next out h = by_test (sent == length chunk) h
  where
    by_test :
        (b : Bool)
        → (if b
            then next
            else exit_with_user_msg (codes "send()") (codes "sent unexpected number of bytes"))
          ≡ done out
        → next ≡ done out
    by_test true e = e
    by_test false e = absurd (cc)

client_rounds-done :
    (p : Peer) (n : ℕ) (out : Bytes) (l : List Received) (all : Bytes)
    → client_rounds p n out l ≡ done all
    → Intact l × (all ≡ out ++ said l)
unfolding client_rounds exit_with_system_msg
client_rounds-done p n out [] all h = (tt, rw (append-nil out) (ground (arith, h)))
client_rounds-done p n out (failed ∷ more) all h = absurd (cc)
client_rounds-done p n out (hung_up ∷ more) all h = (tt, rw (append-nil out) (ground (arith, h)))
client_rounds-done p n out (bytes c buf ∷ more) all h =
    let (i, e) =
      client_rounds-done p (n + 1) (out ++ c ∷ buf) more all
        (check_sent-done p (codes "send() failed") n (c ∷ buf) (p.send n (c ∷ buf)) _ all h) in
    (i, e ∙ append_assoc out (c ∷ buf) (said more))

-- If HandleClient returns, then no call failed and the client was sent what it had said until it
-- hung up.
pub handle_client-done :
    (p : Peer) (all : Bytes)
    → handle_client p ≡ done all
    → Intact p.received × (all ≡ said p.received)
unfolding handle_client
handle_client-done p all h = client_rounds-done p 0 [] p.received all h

client_rounds-all :
    (p : Peer) (n : ℕ) (out : Bytes) (l : List Received)
    → SendsAll p
    → Intact l
    → client_rounds p n out l ≡ done (out ++ said l)
unfolding client_rounds
client_rounds-all p n out [] s i = ap done (sym (append-nil out))
client_rounds-all p n out (failed ∷ more) s i = absurd i
client_rounds-all p n out (hung_up ∷ more) s i = ap done (sym (append-nil out))
client_rounds-all p n out (bytes c buf ∷ more) s i =
    let full : (length (c ∷ buf) == length (c ∷ buf)) ≡ true = ground arith in
    rw (s n (c ∷ buf), full)
      (client_rounds-all p (n + 1) (out ++ c ∷ buf) more s i
        ∙ ap done (append_assoc out (c ∷ buf) (said more)))

-- If no `recv` fails and every `send` sends everything, then HandleClient returns, and the
-- client was sent what it had said until it hung up.
pub handle_client-all :
    (p : Peer) → SendsAll p → Intact p.received → handle_client p ≡ done (said p.received)
unfolding handle_client
handle_client-all p s i = client_rounds-all p 0 [] p.received s i
