-- ===== src/Net/Client/Endless.antt =====
-- A stream that ends early, for the two loops of the echo clients.
use socket_programming_c.Prelude.{
  ℕ, zero, suc, ◌+◌, ◌<◌, ◌≡◌, refl, true, List, [], ◌∷◌, ◌++◌, arith, Bytes, codes, length,
  length-append, ltb, lt→ltb,
}
use socket_programming_c.Calls.{Received, failed, hung_up, bytes}
use socket_programming_c.Exits.{out_of_fuel, exit_with_user_msg}
use socket_programming_c.Net.Client.{text_of, receive, receive_unchecked}
use socket_programming_c.Net.Client.Printed.{Readable}
use socket_programming_c.Net.Echo.Faithful.{said, Intact}

-- If the server closes the connection before it has sent as much as is wanted, then the client of
-- ch02/IPv6_TCP_V2 goes on for ever: no number of rounds is enough for its loop.
pub receive_unchecked-endless :
    (fuel : ℕ) (reason : Bytes) (want total : ℕ) (out : Bytes) (l : List Received)
    → Intact l
    → Readable l
    → total + length (said l) < want
    → receive_unchecked reason want fuel total out l ≡ out_of_fuel
unfolding receive_unchecked
receive_unchecked-endless zero reason want total out l i r h = refl
receive_unchecked-endless (suc fuel) reason want total out [] i r h =
    let missing : ltb total want ≡ true = lt→ltb _ _ (omega arith) in
    rw missing (receive_unchecked-endless fuel reason want total out [] tt tt h)
receive_unchecked-endless (suc fuel) reason want total out (failed ∷ more) i r h = absurd i
receive_unchecked-endless (suc fuel) reason want total out (hung_up ∷ more) i r h =
    let missing : ltb total want ≡ true = lt→ltb _ _ (omega arith) in
    rw missing (receive_unchecked-endless fuel reason want total out [] tt tt h)
receive_unchecked-endless (suc fuel) reason want total out (bytes c buf ∷ more) i ((n, z), r) h =
    let count : length ((c ∷ buf) ++ said more) ≡ length (c ∷ buf) + length (said more) =
      length-append (c ∷ buf) (said more) in
    let missing : ltb total want ≡ true = lt→ltb _ _ (omega arith) in
    let room : ltb (length (c ∷ buf)) 100 ≡ true = lt→ltb _ _ n in
    rw (missing, room)
      (receive_unchecked-endless fuel reason want (total + length (c ∷ buf))
        (out ++ text_of (c ∷ buf)) more i r (omega arith))

-- The client of ch02/IPv4_TCP ends with an error instead.
pub receive-short :
    (reason : Bytes) (want total : ℕ) (out : Bytes) (l : List Received)
    → Intact l
    → Readable l
    → total + length (said l) < want
    → receive reason want total out l
      ≡ exit_with_user_msg (codes "recv()") (codes "connection closed prematurely")
unfolding receive
receive-short reason want total out [] i r h =
    let missing : ltb total want ≡ true = lt→ltb _ _ (omega arith) in rw missing refl
receive-short reason want total out (failed ∷ more) i r h = absurd i
receive-short reason want total out (hung_up ∷ more) i r h =
    let missing : ltb total want ≡ true = lt→ltb _ _ (omega arith) in rw missing refl
receive-short reason want total out (bytes c buf ∷ more) i ((n, z), r) h =
    let count : length ((c ∷ buf) ++ said more) ≡ length (c ∷ buf) + length (said more) =
      length-append (c ∷ buf) (said more) in
    let missing : ltb total want ≡ true = lt→ltb _ _ (omega arith) in
    let room : ltb (length (c ∷ buf)) 100 ≡ true = lt→ltb _ _ n in
    rw (missing, room)
      (receive-short reason want (total + length (c ∷ buf)) (out ++ text_of (c ∷ buf)) more i r
        (omega arith))
