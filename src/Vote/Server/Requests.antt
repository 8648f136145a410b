-- ===== src/Vote/Server/Requests.antt =====
-- A connection of the vote server over many requests.
use socket_programming_c.Prelude.{
  ℕ, zero, suc, ◌+◌, ◌*◌, ◌≤◌, ◌<◌, ◌≡◌, refl, ◌∙◌, ap, Bool, List, [], ◌∷◌, ◌++◌, append_assoc,
  arith, Bytes, ℤ, IsInt, length, length-append, drop, drop-append, All, newline,
}
use socket_programming_c.Exits.{done}
use socket_programming_c.CLib.Numerals.{decimal_int}
use socket_programming_c.Vote.Protocol.{VoteInfo, max_wire_size}
use socket_programming_c.Vote.Encoding.{request_text}
use socket_programming_c.Vote.Encoding.Bounds.{Clean, encode-encoded, encode-bounds, encode-Clean}
use socket_programming_c.Vote.Decoding.Requests.{request, request_memory, length-request_text}
use socket_programming_c.Vote.Server.{Session, Line, processed, client_finished, respond, session}
use socket_programming_c.Vote.Server.Words.{
  IsWord64, response_to, response_to_lem, respond-Responded,
}
use socket_programming_c.Vote.Server.Answered.{session-request, session-ended}

-- A request: its candidate, and whether it is an inquiry.
abbrev pub Asked : Type 0
Asked = ℤ × Bool

abbrev pub text_of : Asked → Bytes
text_of (z, inq) = request_text (request z inq)

-- The bytes of many requests.
abbrev pub wires : List Asked → Bytes
wires [] = []
wires (a ∷ more) = text_of a ++ newline ∷ wires more

-- The counters behind the requests.
abbrev pub counted : List ℕ → List Asked → List ℕ
counted counts [] = counts
counted counts ((z, inq) ∷ more) = counted (respond counts (request z inq)).0 more

-- What is reported of the requests.
abbrev pub reports : List ℕ → List Asked → List Line
reports counts [] = client_finished ∷ []
reports counts ((z, inq) ∷ more) =
    processed inq z (response_to counts z inq).count
    ∷ reports (respond counts (request z inq)).0 more

-- No request is shorter than the one before it. The server clears its input array for no request,
-- so a shorter one is read with the end of the one before it.
abbrev pub Ascending : ℕ → List Asked → Type 0
Ascending m [] = Unit
Ascending m ((z, inq) ∷ more) =
    IsInt z × (m ≤ length (text_of (z, inq))) × Ascending (length (text_of (z, inq))) more

-- An array of 500 bytes, with zeros from the index `m` on.
abbrev pub Blank : ℕ → Bytes → Type 0
Blank m buf = (length buf ≡ max_wire_size) × All (λ c. c ≡ 0) (drop m buf)

drop-zeros :
    (m t : ℕ) (buf : Bytes)
    → All (λ c. c ≡ 0) (drop m buf)
    → m ≤ t
    → t < length buf
    → (tail : Bytes) × (drop t buf ≡ 0 ∷ tail)
      × All (λ c. c ≡ 0) tail
      × (suc (t + length tail) ≡ length buf)
drop-zeros m t [] h k l = absurd (omega arith)
drop-zeros zero zero (c ∷ buf) (e, h) k l = (buf, ap (λ x. x ∷ buf) e, h, omega arith)
drop-zeros (suc m) zero (c ∷ buf) h k l = absurd (omega arith)
drop-zeros zero (suc t) (c ∷ buf) (e, h) k l =
    let (tail, d, z, n) = drop-zeros zero t buf h (omega arith) (omega arith) in
    (tail, d, z, omega arith)
drop-zeros (suc m) (suc t) (c ∷ buf) h k l =
    let (tail, d, z, n) = drop-zeros m t buf h (omega arith) (omega arith) in
    (tail, d, z, omega arith)

-- The input array behind a request.
request_memory-Blank :
    (z : ℤ) (inq : Bool) (tail : Bytes)
    → suc (length (text_of (z, inq)) + length tail) ≡ max_wire_size
    → All (λ c. c ≡ 0) tail
    → Blank (length (text_of (z, inq))) (request_memory inq (decimal_int z ++ 0 ∷ tail))
unfolding request_text
request_memory-Blank z inq tail l h = (
  omega (arith, length-append (decimal_int z) (0 ∷ tail)),
  rw (drop-append (decimal_int z) (0 ∷ tail)) (refl, h),
)

-- A session that is ready for these requests: the array, the counters and the device.
abbrev pub ReadyFor : ℕ → List Asked → Session → Type 0
ReadyFor m reqs s =
    Blank m s.in_buf
    × All IsWord64 s.counts
    × Clean s.out_buf
    × (length s.out_buf ≡ max_wire_size)
    × (44 * length reqs ≤ s.channel.room)
    × (s.channel.input ≡ wires reqs)

-- The result of a session: the counters and the output.
abbrev pub Counts : Session → List Asked → Session → Type 0
Counts s reqs s' = (s'.counts ≡ counted s.counts reqs) × (s'.log ≡ s.log ++ reports s.counts reqs)

-- One request, and what it leaves for the rest of them.
request-ReadyFor :
    (fuel m : ℕ) (z : ℤ) (inq : Bool) (more : List Asked) (s : Session)
    → Ascending m ((z, inq) ∷ more)
    → ReadyFor m ((z, inq) ∷ more) s
    → (s' : Session) × (session (suc fuel) s ≡ session fuel s')
      × ReadyFor (length (text_of (z, inq))) more s'
      × (s'.counts ≡ (respond s.counts (request z inq)).0)
      × (s'.log ≡ s.log ++ processed inq z (response_to s.counts z inq).count ∷ [])
request-ReadyFor fuel m z inq more s (h, le, up) ((size, blank), words, clean, out, room, sent) =
    let v : VoteInfo = response_to s.counts z inq in
    let (w, c, i, r) = response_to_lem s.counts z inq h words in
    let short : length (text_of (z, inq)) ≤ 21 = length-request_text z inq h in
    let h' : IsInt v.candidate = rw c h in
    let e =
      encode-encoded v h' w s.out_buf max_wire_size (omega arith) (omega arith) (omega arith) in
    let (p, l, same) =
      encode-bounds v h' w s.out_buf max_wire_size (omega arith) (omega arith) (omega arith) _ _
        e in
    let tidy =
      encode-Clean v h' w s.out_buf max_wire_size (omega arith) (omega arith) (omega arith) _ _ e
        clean in
    let (tail, nul, zeros, total) =
      drop-zeros m (length (text_of (z, inq))) s.in_buf blank le (omega arith) in
    let (words', fits) = respond-Responded s.counts (request z inq) words (h, omega arith) in
    let run =
      session-request fuel s z inq (wires more) tail _ _ h (words, clean, out, omega arith) sent
        (omega arith) nul e in
    (
      _,
      run,
      (
        request_memory-Blank z inq tail (omega arith) zeros,
        words',
        tidy,
        same ∙ out,
        omega arith,
        refl,
      ),
      refl,
      refl,
    )

-- With more fuel than requests, a session that is ready for them serves them all.
pub session-requests :
    (fuel m : ℕ) (reqs : List Asked) (s : Session)
    → length reqs < fuel
    → Ascending m reqs
    → ReadyFor m reqs s
    → (s' : Session) × (session fuel s ≡ done s') × Counts s reqs s'
session-requests zero m reqs s f up ready = absurd (omega arith)
session-requests (suc fuel) m [] s f up (b, w, c, o, r, sent) =
    (_, session-ended fuel s sent, (refl, refl))
session-requests (suc fuel) m ((z, inq) ∷ more) s f up ready =
    let (s₁, run, ready', counts, log) = request-ReadyFor fuel m z inq more s up ready in
    let (s', rest, (a, b)) =
      session-requests fuel (length (text_of (z, inq))) more s₁ (omega arith) up.2 ready' in
    (s', run ∙ rest, (a ∙ rw counts refl, b ∙ rw (counts, log) (append_assoc s.log _ _)))
