-- ===== src/Net/Echo.antt =====
-- The loops of the echo servers: HandleClient of Sockets_in_C/ch06/Utils.c, echo of
-- Sockets_in_C/ch02/IPv4_TCP/server/src/echo.c, and handle_client of ch03 and ch02-2.
pub mod Faithful
pub mod Servers
pub mod Variants
pub mod Select
pub mod Examples
use socket_programming_c.Prelude.{
  ℕ, ◌+◌, List, [], ◌∷◌, ◌++◌, Option, none, some, Bytes, codes, length, ◌==◌, if◌then◌else◌,
}
use socket_programming_c.Calls.{Received, failed, hung_up, bytes}
use socket_programming_c.Exits.{Run, done, exit_with_system_msg, exit_with_user_msg}

-- A connection: its descriptor, what `recv` brings call after call (behind the list it returns
-- 0), what `send` returns by the number of sends before (`none` for -1), and the text of errno.
pub record Peer : Type 0 where
  pub fd : ℕ
  pub received : List Received
  pub send : ℕ → Bytes → Option ℕ
  pub reason : ℕ → Bytes

module _ (p : Peer) where
  -- The test of what `send` returned; `next` is what follows if everything was sent.
  abbrev pub check_sent : Bytes → ℕ → Bytes → Option ℕ → Run Bytes → Run Bytes
  check_sent msg n chunk none next = exit_with_system_msg msg (p.reason n)
  check_sent msg n chunk (some sent) next =
      if sent == length chunk
      then next
      else exit_with_user_msg (codes "send()") (codes "sent unexpected number of bytes")

  -- The loop of HandleClient, behind `n` sends that sent `out`.
  unfoldable pub client_rounds : ℕ → Bytes → List Received → Run Bytes
  client_rounds n out [] = done out
  client_rounds n out (failed ∷ more) = exit_with_system_msg (codes "recv() failed") (p.reason n)
  client_rounds n out (hung_up ∷ more) = done out
  client_rounds n out (bytes c buf ∷ more) =
      let next = client_rounds (n + 1) (out ++ c ∷ buf) more in
      check_sent (codes "send() failed") n (c ∷ buf) (p.send n (c ∷ buf)) next

  -- HandleClient of ch06: what the client was sent.
  unfoldable pub handle_client : Run Bytes
  handle_client = client_rounds 0 [] p.received

  -- The loop of `echo`, with what `recv` brought last; `msg` is printed when `send` fails.
  unfoldable pub echo_rounds : Bytes → ℕ → Bytes → Received → List Received → Run Bytes
  echo_rounds msg n out failed more = exit_with_system_msg (codes "recv() failed") (p.reason n)
  echo_rounds msg n out hung_up more = done out
  echo_rounds msg n out (bytes c buf) [] =
      check_sent msg n (c ∷ buf) (p.send n (c ∷ buf)) (done (out ++ c ∷ buf))
  echo_rounds msg n out (bytes c buf) (r ∷ more) =
      let next = echo_rounds msg (n + 1) (out ++ c ∷ buf) r more in
      check_sent msg n (c ∷ buf) (p.send n (c ∷ buf)) next

  abbrev pub first_round : Bytes → List Received → Run Bytes
  first_round msg [] = done []
  first_round msg (r ∷ more) = echo_rounds msg 0 [] r more

  -- echo of ch02/IPv4_TCP.
  unfoldable pub echo : Run Bytes
  echo = first_round (codes "send() failed") p.received

  -- handle_client of ch03/3-2: the message names the wrong call.
  unfoldable pub handle_client_wrong_name : Run Bytes
  handle_client_wrong_name = first_round (codes "accept() failed") p.received
