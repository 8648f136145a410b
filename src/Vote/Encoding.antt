-- ===== src/Vote/Encoding.antt =====
-- `Encode` of Sockets_in_C/ch05/VoteServer/src/VoteEncodingText.c.
pub mod Bounds
use socket_programming_c.Prelude.{ℕ, ◌+◌, ◌-◌, ◌%◌, ◌^◌, [], ◌∷◌, ◌++◌, Bytes, codes, if◌then◌else◌}
use socket_programming_c.Exits.{Run, done, ◌>>=◌}
use socket_programming_c.CLib.Numerals.{decimal, decimal_int}
use socket_programming_c.CLib.Format.{snprintf}
use socket_programming_c.Vote.Protocol.{VoteInfo}

abbrev pub magic : Bytes
magic = codes "Voting"

abbrev pub response_str : Bytes
response_str = codes "R"

-- "%s %c %s %d"
unfoldable pub request_text : VoteInfo → Bytes
unfolding decimal_int
request_text v =
    magic
    ++ (b' '
        ∷ (if v.is_inquiry then b'i' else b'v')
        ∷ b' '
        ∷ ((if v.is_response then response_str else []) ++ b' ' ∷ decimal_int v.candidate))

-- " %llu"
unfoldable pub count_text : VoteInfo → Bytes
unfolding decimal
count_text v = b' ' ∷ decimal v.count

-- Both calls of `snprintf` write to the start of the buffer. `size` goes down by `rv` at type
-- long, and is passed on as size_t.
unfoldable pub encode : VoteInfo → Bytes → ℕ → Run (Bytes × ℕ)
encode v out_buf buf_size = do
  (buf, rv) ← snprintf out_buf 0 buf_size (request_text v)
  let size : ℕ = (buf_size + 2 ^ 64 - rv) % 2 ^ 64
  if v.is_response
      then (do (buf', rv') ← snprintf buf 0 size (count_text v); done (buf', rv + rv'))
      else done (buf, rv)
