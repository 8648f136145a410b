-- ===== src/CLib/Format.antt =====
-- `snprintf` of stdio.h, once the text that the format makes is known.
use socket_programming_c.Prelude.{
  ℕ, suc, ◌+◌, ◌-◌, ◌<◌, ◌≡◌, [], ◌∷◌, ◌++◌, arith, Bytes, length, take, drop, length-append,
  append_assoc, take-all, true, false, le→leb, leb, ◌==◌, if◌then◌else◌,
}
use socket_programming_c.Exits.{Run, done, undefined, ◌>>=◌}

-- Stores bytes at an offset of a buffer.
unfoldable pub store : Bytes → ℕ → Bytes → Run Bytes
store buf at bytes =
    if leb (at + length bytes) (length buf)
    then done (take at buf ++ (bytes ++ drop (at + length bytes) buf))
    else undefined

-- Of `text` what fits in `size` bytes with a NUL behind it; nothing if `size` is 0.
unfoldable pub cut_text : ℕ → Bytes → Bytes
cut_text size text = if size == 0 then [] else take (size - 1) text ++ 0 ∷ []

-- snprintf(buf + at, size, …) for the formatted text: the buffer, and the length of the whole
-- text.
unfoldable pub snprintf : Bytes → ℕ → ℕ → Bytes → Run (Bytes × ℕ)
unfolding store cut_text
snprintf buf at size text = do buf' ← store buf at (cut_text size text); done (buf', length text)

-- A text that fits is stored with a NUL, at the start of the buffer.
pub snprintf_fits :
    (buf : Bytes) (size : ℕ) (text : Bytes)
    → length text < size
    → length text < length buf
    → snprintf buf 0 size text ≡ done (text ++ 0 ∷ drop (suc (length text)) buf, length text)
unfolding snprintf
snprintf_fits buf size text h k =
    let room : (size == 0) ≡ false = ground arith in
    let whole : take (size - 1) text ≡ text = take-all (size - 1) text (omega arith) in
    let n : length (text ++ 0 ∷ []) ≡ suc (length text) =
      omega (arith, length-append text (0 ∷ [])) in
    let ok : leb (suc (length text)) (length buf) ≡ true = le→leb _ _ k in
    let at : 0 + suc (length text) ≡ suc (length text) = omega arith in
    rw (room, whole, n, at, ok)
      (ground (arith, append_assoc text (0 ∷ []) (drop (suc (length text)) buf)))
