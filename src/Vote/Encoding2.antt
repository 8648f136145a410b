-- ===== src/Vote/Encoding2.antt =====
-- Encode of Sockets_in_C/ch05/VoteClient/src/VoteEncodingText2.c.
pub mod Responses
pub mod Examples
use socket_programming_c.Prelude.{
  ℕ, ◌+◌, ◌-◌, ◌%◌, ◌^◌, Bool, true, [], ◌∷◌, ◌++◌, Bytes, if◌then◌else◌,
}
use socket_programming_c.Exits.{Run, done, ◌>>=◌}
use socket_programming_c.CLib.Format.{snprintf}
use socket_programming_c.Vote.Protocol.{VoteInfo}
use socket_programming_c.Vote.Encoding.{request_text, count_text}

-- The second call of `snprintf` writes behind the text of the first one. `size` goes down by
-- `rv` at type long, and is passed on as size_t.
unfoldable pub encode_text2 : VoteInfo → Bytes → ℕ → Run (Bytes × ℕ)
encode_text2 v out_buf buf_size = do
  (buf, rv) ← snprintf out_buf 0 buf_size (request_text v)
  let size : ℕ = (buf_size + 2 ^ 64 - rv) % 2 ^ 64
  if v.is_response
      then (do (buf', rv') ← snprintf buf rv size (count_text v); done (buf', rv + rv'))
      else done (buf, rv)
