-- ===== src/Vote/DelimFramer2/Examples.antt =====
-- A run of the second framing by newline, and its theorem at a concrete input.
use socket_programming_c.Prelude.{◌≡◌, refl, [], ◌∷◌, ◌++◌, arith, Bytes, codes, pos, replicate}
use socket_programming_c.Exits.{done}
use socket_programming_c.Vote.DelimFramer.{Got, delim, get_next_msg}
use socket_programming_c.Vote.DelimFramer2.{get_next_msg2}
use socket_programming_c.Vote.DelimFramer2.Agreement.{get_next_msg2-get_next_msg}

abbrev two_lines : Bytes
two_lines = codes "hi" ++ delim ∷ codes "you"

abbrev first_line : Got
first_line = record { count = pos 2; input = codes "you"; buf = codes "hi" ++ 0 ∷ [] }

first_read : get_next_msg two_lines (replicate 3 0) 3 ≡ done first_line
unfolding get_next_msg
first_read = refl

get_next_msg2-get_next_msg_example : get_next_msg2 two_lines (replicate 3 0) 3 ≡ done first_line
get_next_msg2-get_next_msg_example =
    get_next_msg2-get_next_msg two_lines (replicate 3 0) 3 first_line (omega arith) first_read
