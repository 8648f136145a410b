-- ===== src/Net/Sigio/Examples.antt =====
-- Runs of the SIGIO server, and its theorems at concrete inputs.
use socket_programming_c.Prelude.{◌≡◌, refl, true, false, [], ◌∷◌, some, arith, codes, length}
use socket_programming_c.Exits.{done, exit_failure}
use socket_programming_c.CLib.Numerals.{decimal}
use socket_programming_c.Net.Lookup.{found}
use socket_programming_c.Net.Address.{SocketAddress, inet, print_or_exit, shown, with_port, swapped}
use socket_programming_c.Net.Sigio.{
  Incoming, datagram, Host, Server, arrive, signal, handle, started, Steps, none_made, one_more,
  round, after_sendto, sigio_handler, Setup, main_sigio,
}
use socket_programming_c.Net.Sigio.Handler.{echoes}
use socket_programming_c.Net.Sigio.Echoed.{sigio_handler-echoes}
use socket_programming_c.Net.Sigio.Waiting.{Kept, arrivals, Steps-Kept, Steps-quiet, Steps_starved}

abbrev a_host : Host
a_host = record {
  inet_ntop = λ v6 a. some (codes "127.0.0.1");
  sendto = λ n buf. some (length buf);
  reason = λ n. [];
}

abbrev a_client : SocketAddress
a_client = inet (127 ∷ 0 ∷ 0 ∷ 1 ∷ []) 7

abbrev hello : Incoming
hello = datagram a_client (codes "hello")

abbrev empty : Incoming
empty = datagram a_client []

-- The empty datagram ends the loop, and `hello` stays.
stays :
    sigio_handler a_host 3 (hello ∷ empty ∷ hello ∷ []) []
    ≡ done (hello ∷ [], (a_client, codes "hello") ∷ (a_client, []) ∷ [])
unfolding sigio_handler round after_sendto print_or_exit shown with_port swapped decimal
stays = refl

printable : print_or_exit a_host.inet_ntop a_client ≡ done (codes "127.0.0.1-1792")
unfolding print_or_exit shown with_port swapped decimal
printable = refl

sigio_handler-echoes_example :
    sigio_handler a_host 3 (hello ∷ hello ∷ []) []
    ≡ done ([], (a_client, codes "hello") ∷ (a_client, codes "hello") ∷ [])
sigio_handler-echoes_example =
    sigio_handler-echoes a_host (hello ∷ hello ∷ []) [] (λ n buf. refl)
      (
        (omega arith, codes "127.0.0.1-1792", printable),
        ((omega arith, codes "127.0.0.1-1792", printable), tt),
      )

abbrev answered : Server
answered = record {
  queue = [];
  sent = (a_client, codes "hello") ∷ [];
  pending = false;
  running = true;
}

one_echoed : round a_host (hello ∷ []) [] ≡ done (true, [], (a_client, codes "hello") ∷ [])
unfolding round after_sendto print_or_exit shown with_port swapped decimal
one_echoed = refl

then_none :
    round a_host [] ((a_client, codes "hello") ∷ [])
    ≡ done (false, [], (a_client, codes "hello") ∷ [])
unfolding round
then_none = refl

abbrev one_hello : Steps a_host started (record answered { running = false })
one_hello =
    one_more
      (one_more (one_more (one_more none_made (arrive hello)) (signal refl refl))
        (handle refl one_echoed))
      (handle refl then_none)

arrived_hello : arrivals one_hello ≡ hello ∷ []
unfolding arrivals
arrived_hello = refl

Steps-quiet_example : (answered.queue ≡ []) × (answered.sent ≡ echoes (arrivals one_hello))
Steps-quiet_example = Steps-quiet one_hello (rw arrived_hello (omega arith, tt)) refl refl

Steps-Kept_example : Kept (arrivals one_hello) (record answered { running = false })
Steps-Kept_example = Steps-Kept one_hello

Steps_starved_example :
    Steps a_host started
      (record { queue = hello ∷ []; sent = (a_client, []) ∷ []; pending = false; running = false })
Steps_starved_example = Steps_starved a_host a_client (codes "127.0.0.1-1792") hello printable refl

abbrev all_well : Setup
all_well = record {
  addresses = found (a_client ∷ []);
  socket = some 3;
  bind = true;
  sigfillset = true;
  sigaction = true;
  set_owner = true;
  set_flags = true;
}

starts : main_sigio 2 all_well ≡ done (some 3)
unfolding main_sigio
starts = refl

no_owner : main_sigio 2 (record all_well { set_owner = false }) ≡ exit_failure []
unfolding main_sigio
no_owner = refl
