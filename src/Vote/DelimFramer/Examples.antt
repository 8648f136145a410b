-- ===== src/Vote/DelimFramer/Examples.antt =====
-- Runs of DelimFramer.c, and its theorems at concrete inputs.
use socket_programming_c.Prelude.{
  ◌++◌, ◌≡◌, refl, [], ◌∷◌, arith, Bytes, codes, pos, negsuc, take, replicate, newline,
}
use socket_programming_c.Exits.{done, exit_failure}
use socket_programming_c.CLib.Stdio.{Stream}
use socket_programming_c.Vote.DelimFramer.{delim, get_next_msg, put_msg}
use socket_programming_c.Vote.DelimFramer.Reading.{Lacks, deliver, frame, get_next_msg_lem}
use socket_programming_c.Vote.DelimFramer.Writing.{put_msg_written, get_next_msg-put_msg}

abbrev out : Stream
out = record { input = []; written = codes "x"; room = 100 }

abbrev buf : Bytes
buf = codes "Voting v  5____"

two_lines :
    get_next_msg (codes "ab" ++ newline ∷ codes "c") (replicate 5 b'_') 5
    ≡ done (record { count = pos 2; input = codes "c"; buf = codes "ab___" })
unfolding get_next_msg
two_lines = refl

too_long :
    get_next_msg (codes "abcdef") (replicate 3 0) 3
    ≡ done (record { count = negsuc 2; input = codes "def"; buf = codes "abc" })
unfolding get_next_msg
too_long = refl

cut_short :
    get_next_msg (codes "ab") (replicate 3 0) 3
    ≡ exit_failure (codes "GetNextMsg(): Stream ended prematurely" ++ newline ∷ [])
unfolding get_next_msg
cut_short = refl

get_next_msg_lem_example :
    get_next_msg (codes "abcdef") (replicate 3 0) 3
    ≡ deliver 3 (replicate 3 0) (frame 3 (codes "abcdef"))
get_next_msg_lem_example =
    get_next_msg_lem (replicate 3 0) 3 (omega arith) (omega arith) (omega arith) (codes "abcdef")

buf_clean : Lacks delim (take 11 buf)
buf_clean = omega arith

vote_sent :
    put_msg buf 11 out
    ≡ done (pos 11, record { input = []; written = codes "xVoting v  5" ++ delim ∷ []; room = 88 })
vote_sent =
    put_msg_written buf 11 out (omega arith) buf_clean (omega arith) (omega arith) (omega arith)

get_next_msg-put_msg_example :
    get_next_msg (codes "Voting v  5" ++ delim ∷ codes "rest") (replicate 12 0) 12
    ≡ done (record { count = pos 11; input = codes "rest"; buf = codes "Voting v  5" ++ 0 ∷ [] })
get_next_msg-put_msg_example =
    get_next_msg-put_msg buf 11 out (omega arith) buf_clean (omega arith) (omega arith)
      (replicate 12 0) (codes "rest") 12 (omega arith) (omega arith) (omega arith) (omega arith)
      (record { input = []; written = codes "xVoting v  5" ++ delim ∷ []; room = 88 })
      (codes "Voting v  5" ++ delim ∷ []) vote_sent refl
