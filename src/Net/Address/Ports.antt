-- ===== src/Net/Address/Ports.antt =====
-- Which port the printed addresses show.
use socket_programming_c.Prelude.{
  ℕ, zero, suc, ◌/◌, ◌%◌, ◌^◌, ◌<◌, ◌≡◌, ◌↔◌, refl, sym, ap, ◌∙◌, Bool, true, false, [], ◌∷◌,
  Option, some, arith, Bytes, ltb, if◌then◌else◌,
}
use socket_programming_c.Exits.{Run, done, exit_failure, exit_success, undefined, out_of_fuel}
use socket_programming_c.CLib.Numerals.{decimal, value, value-decimal}
use mathlib.Core.List.{append_cancel_left}
use socket_programming_c.Net.Address.{
  SocketAddress, inet, inet6, swapped, with_port, shown, print_socket_address, print_host_order,
}

decimal-injective : (a b : ℕ) → decimal a ≡ decimal b → a ≡ b
decimal-injective a b e = sym (value-decimal a) ∙ ap (value 0) e ∙ value-decimal b

swapped-swapped : (n : ℕ) → n < 2 ^ 16 → swapped (swapped n) ≡ n
unfolding swapped
swapped-swapped n h = omega arith

-- What stands behind the address.
abbrev suffix : ℕ → Bytes
suffix port = if ltb 0 port then b'-' ∷ decimal port else []

suffix-injective : (a b : ℕ) → suffix a ≡ suffix b → a ≡ b
suffix-injective zero zero e = refl
suffix-injective zero (suc b) e = ground arith
suffix-injective (suc a) zero e = ground arith
suffix-injective (suc a) (suc b) e = decimal-injective (suc a) (suc b) (ground arith)

with_port-injective : (text : Bytes) (a b : ℕ) → with_port text a ≡ with_port text b → a ≡ b
unfolding with_port
with_port-injective text a b e =
    suffix-injective a b (append_cancel_left text (suffix a) (suffix b) e)

abbrev text_of : Run Bytes → Bytes
text_of (done t) = t
text_of (exit_failure t) = []
text_of (exit_success t) = []
text_of undefined = []
text_of out_of_fuel = []

swapped-same : (n : ℕ) → n < 2 ^ 16 → (swapped n ≡ n) ↔ (n / 256 ≡ n % 256)
unfolding swapped
swapped-same n h = (λ e. omega arith, λ e. omega arith)

-- Printing the port as it is stored shows the port only if its two bytes are the same.
with_port-swapped :
    (text : Bytes) (port : ℕ)
    → port < 2 ^ 16
    → (with_port text (swapped port) ≡ with_port text (swapped (swapped port)))
      ↔ (port / 256 ≡ port % 256)
with_port-swapped text port h = (forth, back)
  where
    forth :
        with_port text (swapped port) ≡ with_port text (swapped (swapped port))
        → port / 256 ≡ port % 256
    forth e =
        let same : swapped port ≡ port =
          with_port-injective text (swapped port) (swapped (swapped port)) e
          ∙ swapped-swapped port h in
        (swapped-same port h).0 same

    back :
        port / 256 ≡ port % 256
        → with_port text (swapped port) ≡ with_port text (swapped (swapped port))
    back e = ap (λ n. with_port text (swapped n)) (sym ((swapped-same port h).1 e))

-- An address of AF_INET6 if the Boolean is true, of AF_INET otherwise.
abbrev pub address : Bool → Bytes → ℕ → SocketAddress
address false a port = inet a port
address true a port = inet6 a port

module _ (inet_ntop : Bool → Bytes → Option Bytes) (a text : Bytes) (port : ℕ) where
  print_socket_address-text :
      (v6 : Bool)
      → inet_ntop v6 a ≡ some text
      → print_socket_address inet_ntop (address v6 a port) ≡ done (with_port text (swapped port))
  unfolding print_socket_address shown
  print_socket_address-text false e = rw e
  print_socket_address-text true e = rw e

  -- With `ntohs` the port is printed that the address has, or nothing for port 0.
  pub print_host_order-text :
      (v6 : Bool)
      → inet_ntop v6 a ≡ some text
      → port < 2 ^ 16
      → print_host_order inet_ntop (address v6 a port) ≡ done (with_port text port)
  unfolding print_host_order shown
  print_host_order-text false e h = rw (e, swapped-swapped port h)
  print_host_order-text true e h = rw (e, swapped-swapped port h)

  -- The functions that print an address with and without `ntohs` print the same for a port if
  -- and only if its two bytes are the same, for an address that `inet_ntop` knows.
  pub print_socket_address-print_host_order :
      (v6 : Bool)
      → inet_ntop v6 a ≡ some text
      → port < 2 ^ 16
      → (print_socket_address inet_ntop (address v6 a port)
          ≡ print_host_order inet_ntop (address v6 a port))
        ↔ (port / 256 ≡ port % 256)
  print_socket_address-print_host_order v6 known h =
      let (forth, back) = with_port-swapped text port h in
      let stored = print_socket_address-text v6 known in
      let host = print_host_order-text v6 known h in
      let swap : with_port text (swapped (swapped port)) ≡ with_port text port =
        ap (with_port text) (swapped-swapped port h) in
      (
        λ e. forth (ap text_of (sym stored ∙ e ∙ host) ∙ sym swap),
        λ e. stored ∙ ap done (back e ∙ swap) ∙ sym host,
      )
