-- ===== src/Net/Client/Printed.antt =====
-- What the echo client prints, also with the echo server of ch06 at the other end.
use socket_programming_c.Prelude.{
  ℕ, ◌+◌, ◌<◌, ◌≡◌, ◌≢◌, refl, sym, ap, ◌∙◌, true, false, List, [], ◌∷◌, ◌++◌, append_assoc,
  append-nil, some, arith, Bytes, length, length-append, ltb, lt→ltb, ◌==◌, All, newline,
}
use socket_programming_c.Calls.{Received, failed, hung_up, bytes}
use socket_programming_c.Exits.{Run, done}
use socket_programming_c.Net.Client.{text_of, receive, parsed, Calls, main_client}
use socket_programming_c.Net.Echo.{Peer, handle_client}
use socket_programming_c.Net.Echo.Faithful.{said, Intact, SendsAll, handle_client-all}

-- No chunk is larger than what `recv` was asked for, and none has a NUL.
abbrev pub Readable : List Received → Type 0
Readable [] = Unit
Readable (failed ∷ more) = Unit
Readable (hung_up ∷ more) = Unit
Readable (bytes c buf ∷ more) =
    (length (c ∷ buf) < 100 × All (λ (x : ℕ). x ≢ 0) (c ∷ buf)) × Readable more

pub text_of-id : (l : Bytes) → All (λ (x : ℕ). x ≢ 0) l → text_of l ≡ l
unfolding text_of
text_of-id [] h = refl
text_of-id (c ∷ l) (n, h) =
    let printable : (c == 0) ≡ false = ground arith in
    rw printable (ap (λ (t : Bytes). c ∷ t) (text_of-id l h))

pub receive-all :
    (reason : Bytes) (want total : ℕ) (out : Bytes) (l : List Received)
    → Intact l
    → Readable l
    → total + length (said l) ≡ want
    → receive reason want total out l ≡ done (out ++ said l)
unfolding receive
receive-all reason want total out [] i r h =
    let over : ltb total want ≡ false = ground arith in rw over (ap done (sym (append-nil out)))
receive-all reason want total out (failed ∷ more) i r h = absurd i
receive-all reason want total out (hung_up ∷ more) i r h =
    let over : ltb total want ≡ false = ground arith in rw over (ap done (sym (append-nil out)))
receive-all reason want total out (bytes c buf ∷ more) i ((n, z), r) h =
    let count : length ((c ∷ buf) ++ said more) ≡ length (c ∷ buf) + length (said more) =
      length-append (c ∷ buf) (said more) in
    let missing : ltb total want ≡ true = lt→ltb _ _ (omega arith) in
    let room : ltb (length (c ∷ buf)) 100 ≡ true = lt→ltb _ _ n in
    rw (missing, room, text_of-id (c ∷ buf) z)
      (receive-all reason want (total + length (c ∷ buf)) (out ++ c ∷ buf) more i r (omega arith)
        ∙ ap done (append_assoc out (c ∷ buf) (said more)))

-- A client and the echo server of ch06: if the server reads what the client sends in whatever
-- chunks, and the client reads what the server sends in whatever chunks below 100 bytes, and no
-- call fails or sends less than everything, then the client prints the text that it sent, which
-- has no NUL in what it reads.
pub receive-handle_client :
    (reason : Bytes) (s : Bytes) (p : Peer) (back : List Received)
    → SendsAll p
    → Intact p.received
    → said p.received ≡ s
    → Intact back
    → Readable back
    → handle_client p ≡ done (said back)
    → receive reason (length s) 0 [] back ≡ done s
receive-handle_client reason s p back a i e i' r h =
    let same : said p.received ≡ said back = done_inj (sym (handle_client-all p a i) ∙ h) in
    receive-all reason (length s) 0 [] back i' r (ground (arith, same, e)) ∙ ap done (sym same ∙ e)
  where
    done_inj : {x y : Bytes} → ◌≡◌ {A = Run Bytes} (done x) (done y) → x ≡ y
    done_inj e = ground (arith, e)

-- If the call of main of ch02/IPv4_TCP/client is correct, its calls succeed, and what comes back
-- is what it sent, in chunks below 100 bytes without NUL, then it prints that and a newline.
pub main_client-all :
    (k : Calls) (echo_str : Bytes) (fd : ℕ)
    → k.socket ≡ some fd
    → k.inet_pton ≡ parsed
    → k.connect ≡ true
    → k.send echo_str ≡ some (length echo_str)
    → Intact k.received
    → Readable k.received
    → said k.received ≡ echo_str
    → main_client 3 echo_str k ≡ done (echo_str ++ newline ∷ [])
unfolding main_client
main_client-all k echo_str fd s a c n i r e =
    let full : (length echo_str == length echo_str) ≡ true = ground arith in
    let back : receive k.reason (length echo_str) 0 [] k.received ≡ done echo_str =
      receive-all k.reason (length echo_str) 0 [] k.received i r (ground (arith, e)) ∙ ap done e in
    rw (s, a, c, n, full, back) refl
