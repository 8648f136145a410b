-- ===== src/Vote/DelimFramer/Reading.antt =====
-- What `GetNextMsg` of DelimFramer.c returns, on every input.
use socket_programming_c.Prelude.{
  ℕ, zero, suc, ◌+◌, ◌^◌, ◌≤◌, ◌<◌, ◌≡◌, ◌≢◌, inl, inr, refl, sym, ◌∙◌, ap, Option, none, some, [],
  ◌∷◌, ◌++◌, arith, Bytes, codes, pos, neg, to_int, length, take, drop, take-append-drop,
  length-take, length-append, append-nil, Bool-cases, ltb→lt, set, fill, fill-zero, length-set, All,
  ltb, ◌==◌, if◌then◌else◌,
}
use socket_programming_c.Exits.{Run, done, exit_with_user_msg}
use socket_programming_c.Vote.DelimFramer.{delim, Got, negated, next_char, get_next_msg}

abbrev pub Lacks : ℕ → Bytes → Type 0
Lacks b = All (λ c. c ≢ b)

-- A line with its delimiter in reach is stored and counted.
next_char_line :
    (msg rest buf : Bytes) (bufSize cnt : ℕ)
    → Lacks delim msg
    → cnt + length msg < bufSize
    → bufSize ≤ length buf
    → next_char bufSize (msg ++ delim ∷ rest) buf cnt
      ≡ done
          (record { count = to_int (pos (cnt + length msg)); input = rest; buf = fill buf cnt msg })
unfolding next_char
next_char_line [] rest buf bufSize cnt l h k = ground arith
next_char_line (c ∷ msg) rest buf bufSize cnt l h k =
    ground (arith, next_char_line msg rest (set buf cnt c) bufSize (cnt + 1), length-set buf cnt c)

-- A chunk that fills the buffer is stored, and its size is returned negated.
next_char_full :
    (c : ℕ) (chunk rest buf : Bytes) (bufSize cnt : ℕ)
    → Lacks delim (c ∷ chunk)
    → cnt + length (c ∷ chunk) ≡ bufSize
    → bufSize ≤ length buf
    → next_char bufSize (c ∷ chunk ++ rest) buf cnt
      ≡ done (record { count = negated bufSize; input = rest; buf = fill buf cnt (c ∷ chunk) })
unfolding next_char
next_char_full c [] rest buf bufSize cnt l h k = ground arith
next_char_full c (d ∷ chunk) rest buf bufSize cnt l h k =
    ground
      (arith, next_char_full d chunk rest (set buf cnt c) bufSize (cnt + 1), length-set buf cnt c)

-- The input ends behind some bytes of a line.
next_char_cut :
    (tail buf : Bytes) (bufSize cnt : ℕ)
    → Lacks delim tail
    → 0 < cnt + length tail
    → cnt + length tail < bufSize
    → bufSize ≤ length buf
    → next_char bufSize tail buf cnt
      ≡ exit_with_user_msg (codes "GetNextMsg()") (codes "Stream ended prematurely")
unfolding next_char
next_char_cut [] buf bufSize cnt l p h k = ground arith
next_char_cut (c ∷ tail) buf bufSize cnt l p h k =
    ground (arith, next_char_cut tail (set buf cnt c) bufSize (cnt + 1), length-set buf cnt c)

-- The input up to the first delimiter, and what follows it if there is one.
pub up_to_delim : Bytes → Bytes × Option Bytes
up_to_delim [] = ([], none)
up_to_delim (c ∷ s) =
    if c == delim then ([], some s) else (c ∷ (up_to_delim s).0, (up_to_delim s).1)

-- What the stream holds for a reader with room for `bufSize` bytes.
pub data Frame : Type 0 where
  message : Bytes → Bytes → Frame
  overlong : Bytes → Bytes → Frame
  ended : Frame
  cut_short : Frame

-- A line that is shorter than the buffer, with what follows its delimiter.
abbrev framed : Bytes → Option Bytes → Frame
framed line (some rest) = message line rest
framed [] none = ended
framed (c ∷ line) none = cut_short

pub frame : ℕ → Bytes → Frame
unfolding up_to_delim
frame bufSize input =
    if ltb (length (up_to_delim input).0) bufSize
    then framed (up_to_delim input).0 (up_to_delim input).1
    else overlong (take bufSize input) (drop bufSize input)

-- What the caller of `GetNextMsg` is to see of it.
pub deliver : ℕ → Bytes → Frame → Run Got
unfolding exit_with_user_msg
deliver bufSize buf (message line rest) =
    done (record { count = pos (length line); input = rest; buf = line ++ drop (length line) buf })
deliver bufSize buf (overlong chunk rest) =
    done (record { count = neg bufSize; input = rest; buf = chunk ++ drop bufSize buf })
deliver bufSize buf ended = done (record { count = neg 1; input = []; buf = buf })
deliver bufSize buf cut_short =
    exit_with_user_msg (codes "GetNextMsg()") (codes "Stream ended prematurely")

rebuild : Bytes → Option Bytes → Bytes
rebuild line none = line
rebuild line (some rest) = line ++ delim ∷ rest

rebuild-up_to_delim : (s : Bytes) → rebuild (up_to_delim s).0 (up_to_delim s).1 ≡ s
unfolding rebuild up_to_delim
rebuild-up_to_delim [] = refl
rebuild-up_to_delim (c ∷ s) = ground (arith, rebuild-up_to_delim s)

up_to_delim-Lacks : (s : Bytes) → Lacks delim (up_to_delim s).0
unfolding up_to_delim
up_to_delim-Lacks [] = tt
up_to_delim-Lacks (c ∷ s) = ground (arith, up_to_delim-Lacks s)

negated-neg : (n : ℕ) → 0 < n → n < 2 ^ 31 → negated n ≡ neg n
negated-neg n p q = ground arith

-- A full buffer, by its contents.
next_char_take :
    (c : ℕ) (chunk rest buf : Bytes) (bufSize : ℕ)
    → Lacks delim (c ∷ chunk)
    → length (c ∷ chunk) ≡ bufSize
    → bufSize < 2 ^ 31
    → bufSize ≤ length buf
    → next_char bufSize ((c ∷ chunk) ++ rest) buf 0
      ≡ deliver bufSize buf (overlong (c ∷ chunk) rest)
unfolding deliver
next_char_take c chunk rest buf bufSize l e q k =
    rw
      (
        next_char_full c chunk rest buf bufSize 0 l (omega arith) k,
        negated-neg bufSize (omega arith) q,
        fill-zero buf (c ∷ chunk) (omega arith),
      )
      (ground arith)

All-take_append :
    (n : ℕ) (line rest : Bytes)
    → Lacks delim line
    → n ≤ length line
    → Lacks delim (take n (line ++ rest))
All-take_append zero line rest l h = tt
All-take_append (suc n) [] rest l h = elim h [ ]
All-take_append (suc n) (c ∷ line) rest (p, l) h = (p, All-take_append n line rest l (omega arith))

rebuild-append :
    (line : Bytes) (after : Option Bytes) → (t : Bytes) × (rebuild line after ≡ line ++ t)
unfolding rebuild
rebuild-append line none = ([], sym (append-nil line))
rebuild-append line (some rest) = (delim ∷ rest, refl)

module _ (buf : Bytes) (bufSize : ℕ) (p : 0 < bufSize) (q : bufSize < 2 ^ 31) where
  module _ (k : bufSize ≤ length buf) where
    next_char-framed :
        (line : Bytes) (after : Option Bytes)
        → Lacks delim line
        → length line < bufSize
        → next_char bufSize (rebuild line after) buf 0 ≡ deliver bufSize buf (framed line after)
    unfolding rebuild deliver
    next_char-framed line (some rest) l h =
        rw
          (
            next_char_line line rest buf bufSize 0 l (omega arith) k,
            fill-zero buf line (omega arith),
          )
          (ground arith)
    next_char-framed [] none l h = unfold next_char in refl
    next_char-framed (c ∷ line) none l h =
        next_char_cut (c ∷ line) buf bufSize 0 l (omega arith) (omega arith) k

    next_char_split :
        (chunk rest : Bytes)
        → Lacks delim chunk
        → length chunk ≡ bufSize
        → next_char bufSize (chunk ++ rest) buf 0 ≡ deliver bufSize buf (overlong chunk rest)
    next_char_split [] rest l e = absurd (omega arith)
    next_char_split (c ∷ chunk) rest l e = next_char_take c chunk rest buf bufSize l e q k

    next_char_overlong :
        (line t : Bytes)
        → Lacks delim line
        → bufSize ≤ length line
        → next_char bufSize (line ++ t) buf 0
          ≡ deliver bufSize buf (overlong (take bufSize (line ++ t)) (drop bufSize (line ++ t)))
    next_char_overlong line t l h =
        ap (λ s. next_char bufSize s buf 0) (sym (take-append-drop bufSize (line ++ t)))
        ∙ next_char_split (take bufSize (line ++ t)) (drop bufSize (line ++ t))
            (All-take_append bufSize line t l h)
            (omega (arith, length-take bufSize (line ++ t), length-append line t))

    next_char-rebuild :
        (line : Bytes) (after : Option Bytes)
        → Lacks delim line
        → next_char bufSize (rebuild line after) buf 0
          ≡ deliver bufSize buf (
              if ltb (length line) bufSize
              then framed line after
              else overlong (take bufSize (rebuild line after)) (drop bufSize (rebuild line after)))
    next_char-rebuild line after l = elim (Bool-cases (ltb (length line) bufSize)) [
      | inl short ↦ rw short (next_char-framed line after l (ltb→lt _ _ short))
      | inr long ↦
          rw (long, (rebuild-append line after).1)
            (next_char_overlong line (rebuild-append line after).0 l (ground arith))
    ]

    -- `GetNextMsg` with a buffer of `bufSize` bytes, from 1 to 2^31 - 1, returns on every input
    -- what its comment says. A line shorter than the buffer is stored and its length returned;
    -- of a longer one the first `bufSize` bytes are stored and `-bufSize` is returned; at the
    -- end of the stream it is -1 with nothing stored; and a stream that ends inside a line ends
    -- the process.
    pub get_next_msg_lem :
        (input : Bytes) → get_next_msg input buf bufSize ≡ deliver bufSize buf (frame bufSize input)
    unfolding get_next_msg frame
    get_next_msg_lem input =
        rw (rebuild-up_to_delim input) at
          (next_char-rebuild (up_to_delim input).0 (up_to_delim input).1 (up_to_delim-Lacks input))

-- A line that is shorter than the buffer is received whole.
pub get_next_msg_line :
    (line rest buf : Bytes) (bufSize : ℕ)
    → Lacks delim line
    → length line < bufSize
    → bufSize < 2 ^ 31
    → bufSize ≤ length buf
    → get_next_msg (line ++ delim ∷ rest) buf bufSize
      ≡ done
          (record { count = pos (length line); input = rest; buf = line ++ drop (length line) buf })
unfolding get_next_msg rebuild deliver
get_next_msg_line line rest buf bufSize l h q k =
    next_char-framed buf bufSize (omega arith) q k line (some rest) l h

-- A stream that ends inside its first line ends the process.
pub get_next_msg_cut :
    (tail buf : Bytes) (bufSize : ℕ)
    → Lacks delim tail
    → 0 < length tail
    → length tail < bufSize
    → bufSize ≤ length buf
    → get_next_msg tail buf bufSize
      ≡ exit_with_user_msg (codes "GetNextMsg()") (codes "Stream ended prematurely")
unfolding get_next_msg
get_next_msg_cut tail buf bufSize l p h k =
    next_char_cut tail buf bufSize 0 l (omega arith) (omega arith) k
