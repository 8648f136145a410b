-- ===== src/Net/Sigio.antt =====
-- Sockets_in_C/ch06/UDPEchoServer-SIGIO.c: an echo server for datagrams, which reads them in a
-- signal handler.
pub mod Handler
pub mod Echoed
pub mod Waiting
pub mod Examples
use socket_programming_c.Prelude.{
  ℕ, zero, suc, ◌+◌, Bool, true, false, List, [], ◌∷◌, ◌++◌, Option, none, some, Bytes, codes,
  length, take, ltb, ◌==◌, ◌≡◌, if◌then◌else◌, newline,
}
use socket_programming_c.Exits.{
  Run, done, exit_failure, undefined, out_of_fuel, exit_with_system_msg, ◌>>=◌,
}
use socket_programming_c.Net.Address.{SocketAddress, print_or_exit}
use socket_programming_c.Net.Lookup.{Lookup, found, lookup_failed}

-- What waits at the socket: a datagram and where it came from, or an error with the text of
-- errno.
pub data Incoming : Type 0 where
  datagram : SocketAddress → Bytes → Incoming
  socket_error : Bytes → Incoming

-- What was sent, and where to.
abbrev pub Echo : Type 0
Echo = SocketAddress × Bytes

abbrev pub buf_size : ℕ
buf_size = 100

-- The results of the calls that the handler makes: `sendto` by the number of datagrams sent
-- before (`none` for -1), and the text of errno then.
pub record Host : Type 0 where
  pub inet_ntop : Bool → Bytes → Option Bytes
  pub sendto : ℕ → Bytes → Option ℕ
  pub reason : ℕ → Bytes

-- The condition of the loop, what waits, and what was sent.
abbrev pub Round : Type 0
Round = Bool × List Incoming × List Echo

module _ (h : Host) where
  -- The tests of what `sendto` returns, behind the datagrams `sent`.
  unfoldable pub after_sendto :
      SocketAddress → Bytes → List Incoming → List Echo → Option ℕ → Run Round
  unfolding exit_with_system_msg
  after_sendto a buf queue sent none =
      exit_with_system_msg (codes "sendto()") (h.reason (length sent))
  after_sendto a buf queue sent (some n) =
      if n == length buf
      then done (ltb 0 (length buf), queue, sent ++ (a, buf) ∷ [])
      else exit_failure []

  -- The body of the loop of SIGIOHandler. `recvfrom` cuts a datagram to the size of the buffer,
  -- and brings EWOULDBLOCK if nothing waits.
  unfoldable pub round : List Incoming → List Echo → Run Round
  unfolding exit_with_system_msg
  round [] sent = done (false, [], sent)
  round (socket_error reason ∷ queue) sent = exit_with_system_msg (codes "recvfrom()") reason
  round (datagram a payload ∷ queue) sent = do
    text ← print_or_exit h.inet_ntop a
    after_sendto a (take buf_size payload) queue sent
        (h.sendto (length sent) (take buf_size payload))

  -- SIGIOHandler, if nothing arrives while it runs.
  unfoldable pub sigio_handler : ℕ → List Incoming → List Echo → Run (List Incoming × List Echo)
  sigio_handler zero queue sent = out_of_fuel
  sigio_handler (suc fuel) queue sent = do
    (again, queue', sent') ← round queue sent
    let rest = sigio_handler fuel queue' sent'
    if again then rest else done (queue', sent')

-- The server: what waits at its socket, what it sent, whether a SIGIO is pending, and whether the
-- handler runs.
pub record Server : Type 0 where
  pub queue : List Incoming
  pub sent : List Echo
  pub pending : Bool
  pub running : Bool

-- What happens to it while main is in its last loop, whose UseIdleTime changes nothing. The
-- handler's mask blocks all signals, so a SIGIO that comes while it runs stays pending, and it is
-- one however often it comes. A server that exits takes no step.
pub data Step (h : Host) (s : Server) : Server → Type 0 where
  arrive : (d : Incoming) → Step h s (record s { queue = s.queue ++ d ∷ []; pending = true })
  signal :
      s.pending ≡ true → s.running ≡ false → Step h s (record s { pending = false; running = true })
  handle :
      {again : Bool} {queue : List Incoming} {sent : List Echo}
      → s.running ≡ true
      → round h s.queue s.sent ≡ done (again, queue, sent)
      → Step h s (record s { queue = queue; sent = sent; running = again })

-- The server when its socket raises SIGIO from now on.
abbrev pub started : Server
started = record { queue = []; sent = []; pending = false; running = false }

pub data Steps (h : Host) (s : Server) : Server → Type 0 where
  none_made : Steps h s s
  one_more : {t u : Server} → Steps h s t → Step h t u → Steps h s u

-- The results of the calls of main, in its order. Of the addresses it tries the first one.
pub record Setup : Type 0 where
  pub addresses : Lookup SocketAddress
  pub socket : Option ℕ
  pub bind : Bool
  pub sigfillset : Bool
  pub sigaction : Bool
  pub set_owner : Bool
  pub set_flags : Bool

-- if (… < 0) exit(EXIT_FAILURE);
abbrev pub or_exit {ℓ} : {A : Type ℓ} → Bool → Run A → Run A
or_exit ok next = if ok then next else exit_failure []

-- main from `socket` on.
abbrev pub with_address : Setup → Run (Option ℕ)
with_address k = with_socket k.socket
  where
    with_socket : Option ℕ → Run (Option ℕ)
    with_socket none = exit_failure []
    with_socket (some sock) = or_exit k.bind (
        or_exit k.sigfillset
          (or_exit k.sigaction (or_exit k.set_owner (or_exit k.set_flags (done (some sock))))))

abbrev pub first_address : Setup → Lookup SocketAddress → Run (Option ℕ)
first_address k (lookup_failed text) =
    exit_failure (codes "getaddrinfo() failed: " ++ text ++ newline ∷ [])
first_address k (found []) = undefined
first_address k (found (a ∷ list)) = with_address k

-- main up to its last loop: the socket, or `none` if it returned 0.
unfoldable pub main_sigio : ℕ → Setup → Run (Option ℕ)
main_sigio argc k = if argc == 2 then first_address k k.addresses else done none
