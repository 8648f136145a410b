-- ===== src/Vote/Decoding.antt =====
-- `Decode` of Sockets_in_C/ch05/VoteServer/src/VoteEncodingText.c. It works on the buffer
-- itself, not on a message of `mSize` bytes, and leaves NULs in it.
pub mod Requests
pub mod Responses
pub mod Stale
pub mod Safety
pub mod Typed
pub mod Ended
pub mod Examples
use socket_programming_c.Prelude.{
  ℕ, ◌+◌, ◌-◌, ◌%◌, ◌^◌, Bool, true, false, not, [], ◌∷◌, ◌++◌, Bytes, codes, residue,
  if◌then◌else◌,
}
use socket_programming_c.CLib.Tokens.{Strtok, null, token, strtok, str_eq}
use socket_programming_c.CLib.Numerals.{strtoll, atoi}
use socket_programming_c.Vote.Protocol.{VoteInfo}
use socket_programming_c.Vote.Encoding.{magic, response_str}

abbrev pub vote_str : Bytes
vote_str = codes "v"

abbrev pub inq_str : Bytes
inq_str = codes "i"

abbrev pub delim_str : ℕ
delim_str = b' '

-- `rejected` is the result false, with what was written to `*v` by then.
pub data Decoded {ℓ} (A : Type ℓ) : Type ℓ where
  accepted : A → Decoded A
  rejected : VoteInfo → Decoded A
  overrun : Decoded A

infixl 5 ◌>>=◌
abbrev pub ◌>>=◌ {ℓ κ} : {A : Type ℓ} {B : Type κ} → Decoded A → (A → Decoded B) → Decoded B
accepted a >>= f = f a
rejected v >>= f = rejected v
overrun >>= f = overrun

-- tok = strtok(…, DELIM_STR); if (tok == NULL) return false;
abbrev pub checked : VoteInfo → Strtok → Decoded (Bytes × Bytes × Bytes)
checked v null = rejected v
checked v (token tok before rest) = accepted (tok, before, rest)
checked v Strtok.overrun = overrun

unfoldable pub next_token : VoteInfo → Bytes → Bytes → Decoded (Bytes × Bytes × Bytes)
unfolding strtok
next_token v before rest = checked v (strtok delim_str before rest)

unfoldable pub decode_kind : VoteInfo → Bytes → Decoded VoteInfo
decode_kind v tok =
    if str_eq tok vote_str
    then accepted (record v { is_inquiry = false })
    else if str_eq tok inq_str
    then accepted (record v { is_inquiry = true })
    else rejected v

-- The end of `Decode`, from the call of `atoi` on: the result is `*v` and the buffer.
unfoldable pub decode_numbers : VoteInfo → Bytes × Bytes × Bytes → Decoded (VoteInfo × Bytes)
decode_numbers v (tok, before, rest) =
    let v' : VoteInfo = record v { candidate = atoi tok } in
    if v'.is_response
    then (do
      (tok', before', rest') ← next_token v' before rest
      accepted (record v' { count = residue (2 ^ 64) (strtoll tok') }, before' ++ rest'))
    else accepted (record v' { count = 0 }, before ++ rest)

unfoldable pub decode_response : VoteInfo → Bytes × Bytes × Bytes → Decoded (VoteInfo × Bytes)
decode_response v (tok, before, rest) =
    if str_eq tok response_str
    then (do
      number ← next_token (record v { is_response = true }) before rest
      decode_numbers (record v { is_response = true }) number)
    else decode_numbers (record v { is_response = false }) (tok, before, rest)

unfoldable pub decode : Bytes → ℕ → VoteInfo → Decoded (VoteInfo × Bytes)
decode in_buf m_size v = do
  (tok, before, rest) ← next_token v [] in_buf
  if not (str_eq tok magic) then rejected v else do
    (tok', before', rest') ← next_token v before rest
    v' ← decode_kind v tok'
    third ← next_token v' before' rest'
    decode_response v' third
