-- ===== src/Vote/Decoding/Stale.antt =====
-- `Decode` reads past the message: digits that an earlier, longer request left in the buffer
-- become part of the candidate's number.
use socket_programming_c.Prelude.{ℕ, Bool, ◌∷◌, ◌++◌, Bytes, pos, length, drop}
use socket_programming_c.CLib.Numerals.{decimal}
use socket_programming_c.Vote.Encoding.{request_text}
use socket_programming_c.Vote.Decoding.Requests.{request, request_memory}

-- The digits of `n` and behind them those of `old` that it does not cover.
abbrev pub mixed : ℕ → ℕ → Bytes
mixed n old = decimal n ++ drop (length (decimal n)) (decimal old)

-- What the server's buffer holds once the request for `n` is stored over the decoded one for
-- `old`.
abbrev pub overlaid : Bool → ℕ → Bool → ℕ → Bytes → Bytes
overlaid inq n inq' old rest =
    let line : Bytes = request_text (request (pos n) inq) in
    line ++ drop (length line) (request_memory inq' (decimal old ++ 0 ∷ rest))
