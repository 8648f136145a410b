-- ===== src/Net/Address/Examples.antt =====
-- Addresses printed, and the theorems on them at concrete inputs.
use socket_programming_c.Prelude.{
  ◌/◌, ◌%◌, ◌≡◌, ◌↔◌, refl, Bool, false, [], ◌∷◌, Option, some, arith, Bytes, codes,
}
use socket_programming_c.Exits.{done}
use socket_programming_c.CLib.Numerals.{decimal}
use socket_programming_c.Net.Address.{
  inet, with_port, shown, swapped, print_socket_address, print_host_order,
}
use socket_programming_c.Net.Address.Ports.{address, print_socket_address-print_host_order}

abbrev loopback : Bool → Bytes → Option Bytes
loopback v6 a = some (codes "127.0.0.1")

-- Port 7 is shown as 1792.
port_seven :
    print_socket_address loopback (inet (127 ∷ 0 ∷ 0 ∷ 1 ∷ []) 7) ≡ done (codes "127.0.0.1-1792")
unfolding print_socket_address shown swapped with_port decimal
port_seven = refl

print_socket_address-print_host_order_example :
    (print_socket_address loopback (address false (127 ∷ 0 ∷ 0 ∷ 1 ∷ []) 7)
      ≡ print_host_order loopback (address false (127 ∷ 0 ∷ 0 ∷ 1 ∷ []) 7))
    ↔ (7 / 256 ≡ 7 % 256)
print_socket_address-print_host_order_example =
    print_socket_address-print_host_order loopback (127 ∷ 0 ∷ 0 ∷ 1 ∷ []) (codes "127.0.0.1") 7
      false refl (omega arith)
