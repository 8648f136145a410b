-- ===== src/Net/Lookup.antt =====
-- GetAddrList of Sockets_in_C/ch05/VoteServer/src/Utils.c: getaddrinfo, and the test of its
-- result.
use socket_programming_c.Prelude.{List, Bytes, codes}
use socket_programming_c.Exits.{Run, done, exit_with_user_msg}

-- What getaddrinfo brings: the addresses, or the text that gai_strerror has for its result.
pub data Lookup (A : Type 0) : Type 0 where
  found : List A → Lookup A
  lookup_failed : Bytes → Lookup A

unfoldable pub get_addr_list : {A : Type 0} → Lookup A → Run (List A)
unfolding exit_with_user_msg
get_addr_list (found list) = done list
get_addr_list (lookup_failed text) = exit_with_user_msg (codes "getaddrinfo() failed") text
