-- ===== src/Vote/LengthFramer/Examples.antt =====
-- Runs of the framing by length, and its theorems at concrete inputs.
use socket_programming_c.Prelude.{
  ◌+◌, ◌≡◌, refl, [], ◌∷◌, ◌++◌, arith, Bytes, codes, pos, to_int, drop, replicate,
}
use socket_programming_c.Exits.{done, undefined}
use socket_programming_c.CLib.Stdio.{fread}
use socket_programming_c.CLib.Format.{store}
use socket_programming_c.Vote.LengthFramer.{to_network, read_message, get_next_msg, put_msg}
use socket_programming_c.Vote.LengthFramer.RoundTrip.{
  holding, get_next_msg-overflow, get_next_msg-put_msg-length,
}

abbrev hi : Bytes
hi = codes "hi"

abbrev buffer : Bytes
buffer = replicate 4 9

read_hi :
    get_next_msg (holding (0 ∷ 2 ∷ (hi ++ 7 ∷ [])) [] 0) buffer 4
    ≡ done (pos 2, hi ++ 9 ∷ 9 ∷ [], holding (7 ∷ []) [] 0)
unfolding get_next_msg read_message fread store
read_hi = refl

get_next_msg-put_msg-length_example :
    (sent : Bytes) × ((put_msg hi 2 (holding [] [] 10)).0 ≡ to_int (pos 2))
    × ((put_msg hi 2 (holding [] [] 10)).1.written ≡ [] ++ sent)
    × (get_next_msg (holding (sent ++ 7 ∷ []) [] 0) buffer 4
        ≡ done (to_int (pos 2), hi ++ drop 2 buffer, holding (7 ∷ []) [] 0))
get_next_msg-put_msg-length_example =
    get_next_msg-put_msg-length hi [] [] (7 ∷ []) buffer 10 0 4 (omega arith) (omega arith)
      (omega arith) (omega arith)

abbrev waste_bytes : Bytes
waste_bytes = replicate 101 1

get_next_msg-overflow_example :
    get_next_msg (holding (to_network (2 + 101) ++ (hi ++ (waste_bytes ++ []))) [] 0) buffer 2
    ≡ undefined
get_next_msg-overflow_example =
    get_next_msg-overflow hi waste_bytes [] [] buffer 0 2 refl (omega arith) (omega arith)
      (omega arith)
