-- ===== src/Vote/DelimFramer/Writing.antt =====
-- What `PutMsg` of DelimFramer.c writes, and that `GetNextMsg` reads it back.
use socket_programming_c.Prelude.{
  ℕ, zero, suc, ◌-◌, ◌*◌, ◌/◌, min, ◌^◌, ◌≤◌, ◌<◌, ◌≡◌, refl, ◌⊎◌, inl, inr, true, false, [], ◌∷◌,
  ◌++◌, arith, Bytes, pos, neg, length, take, drop, length-take, take-all, append-nil, append_assoc,
}
use socket_programming_c.Exits.{done}
use socket_programming_c.CLib.Stdio.{Stream, fwrite, fputc}
use socket_programming_c.Vote.DelimFramer.{delim, has_delim, end_msg, put_msg, get_next_msg}
use mathlib.Core.List.{append_cancel_left}
use socket_programming_c.Vote.DelimFramer.Reading.{Lacks, get_next_msg_line}

-- The search looks at the first `n` bytes.
has_delim-Lacks :
    (n : ℕ) (buf : Bytes) → n ≤ length buf → Lacks delim (take n buf) → has_delim n buf ≡ done false
unfolding has_delim
has_delim-Lacks zero buf h l = refl
has_delim-Lacks (suc n) [] h l = elim h [ ]
has_delim-Lacks (suc n) (c ∷ buf) h l = ground (arith, has_delim-Lacks n buf (omega arith) l.1)

has_delim-found :
    (pre post buf : Bytes) (n : ℕ) → take n buf ≡ pre ++ delim ∷ post → has_delim n buf ≡ done true
unfolding has_delim
has_delim-found [] post buf zero e = cc
has_delim-found [] post [] (suc n) e = cc
has_delim-found [] post (c ∷ buf) (suc n) e = ground arith
has_delim-found (d ∷ pre) post buf zero e = cc
has_delim-found (d ∷ pre) post [] (suc n) e = cc
has_delim-found (d ∷ pre) post (c ∷ buf) (suc n) e = ground (arith, has_delim-found pre post buf n)

module _ (buf : Bytes) (msgSize : ℕ) (out : Stream) (fits : msgSize ≤ length buf) where
  fwrite_lem :
      0 < msgSize
      → msgSize ≤ out.room
      → fwrite buf msgSize 1 out ≡ (
        1,
        record {
          input = out.input;
          written = out.written ++ take msgSize buf;
          room = out.room - msgSize;
        },
      )
  unfolding fwrite
  fwrite_lem p r =
      let one : msgSize * 1 ≡ msgSize = omega arith in
      let whole : min msgSize out.room ≡ msgSize = omega arith in
      let items : msgSize / msgSize ≡ 1 = grind arith in
      let size : length (take msgSize buf) ≡ msgSize = omega (arith, length-take msgSize buf) in
      rw (one, whole, items, take-all out.room (take msgSize buf) (omega arith), size)

  module _ (clean : Lacks delim (take msgSize buf)) (p : 0 < msgSize) (q : msgSize < 2 ^ 31) where
    -- A message with no newline, on a device with room for it and one byte more, is written with
    -- the newline behind it, and its size is returned.
    pub put_msg_written :
        msgSize < out.room
        → put_msg buf msgSize out
          ≡ done (
            pos msgSize,
            record {
              input = out.input;
              written = out.written ++ take msgSize buf ++ delim ∷ [];
              room = out.room - msgSize - 1;
            },
          )
    unfolding put_msg
    put_msg_written r =
        rw (has_delim-Lacks msgSize buf fits clean, fwrite_lem p (omega arith))
          (unfold end_msg fputc in ground (arith, take-all (out.room - msgSize) (delim ∷ [])))

    pub put_msg_lost :
        msgSize ≡ out.room
        → put_msg buf msgSize out
          ≡ done (
            pos msgSize,
            record { input = out.input; written = out.written ++ take msgSize buf; room = 0 },
          )
    unfolding put_msg
    put_msg_lost r =
        rw (has_delim-Lacks msgSize buf fits clean, fwrite_lem p (omega arith))
          (unfold end_msg fputc in ground (arith, append-nil (out.written ++ take msgSize buf)))

    -- What `PutMsg` writes `GetNextMsg` reads back, and it leaves what was sent behind it: a
    -- message with no newline, not empty, that is shorter than the reader's buffer, on a device
    -- with room for it and one byte more.
    pub get_next_msg-put_msg :
        (inbuf rest : Bytes) (bufSize : ℕ)
        → msgSize < out.room
        → msgSize < bufSize
        → bufSize < 2 ^ 31
        → bufSize ≤ length inbuf
        → (out' : Stream) (sent : Bytes) → put_msg buf msgSize out ≡ done (pos msgSize, out')
        → out'.written ≡ out.written ++ sent
        → get_next_msg (sent ++ rest) inbuf bufSize
          ≡ done (record {
            count = pos msgSize;
            input = rest;
            buf = take msgSize buf ++ drop msgSize inbuf;
          })
    get_next_msg-put_msg inbuf rest bufSize r h b k out' sent e w =
        let w' : out.written ++ (take msgSize buf ++ delim ∷ []) ≡ out.written ++ sent =
          ground
            (arith, put_msg_written r, append_assoc out.written (take msgSize buf) (delim ∷ [])) in
        let s : take msgSize buf ++ delim ∷ [] ≡ sent =
          append_cancel_left out.written (take msgSize buf ++ delim ∷ []) sent w' in
        let size : length (take msgSize buf) ≡ msgSize = omega (arith, length-take msgSize buf) in
        rw (← s, append_assoc)
          (ground (arith, get_next_msg_line (take msgSize buf) rest inbuf bufSize clean))

module _ (buf : Bytes) (msgSize : ℕ) (out : Stream) where
  -- A message that holds a newline, and an empty one, are refused with nothing written.
  pub put_msg_refused :
      msgSize ≤ length buf
      → ((pre : Bytes) × (post : Bytes) × (take msgSize buf ≡ pre ++ delim ∷ post)) ⊎ (msgSize ≡ 0)
      → put_msg buf msgSize out ≡ done (neg 1, out)
  unfolding put_msg
  put_msg_refused fits (inl (pre, post, e)) = rw (has_delim-found pre post buf msgSize e)
  put_msg_refused fits (inr e) = rw e (
      unfold has_delim fwrite end_msg in
      ground (arith, take-all {A = ℕ} out.room [] (omega arith), append-nil out.written))
