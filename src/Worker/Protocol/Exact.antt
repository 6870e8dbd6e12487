-- ===== src/Worker/Protocol/Exact.antt =====
-- However the pipe cuts a message up, all of it is read and nothing else.
use refundagent.Common.{
  length-append, ℕ, zero, suc, false, [], ◌∷◌, ◌++◌, length, ◌-◌, ◌==◌, ◌≡◌, refl, ◌≤◌, ◌<◌, ◌∙◌,
  ap, sym, All, arith,
}
use refundagent.Common.Bytes.{Bytes, drop}
use refundagent.Common.Chars.{take}
use refundagent.Common.Chars.Take.{length-take}
use refundagent.Worker.Protocol.{Stream, unread, read_rounds, read_exact}
use refundagent.Domain.Result.{Result, ok, err, protocol_error}

-- What a stream delivers until it is closed.
abbrev pub content : Stream → Bytes
content [] = []
content (piece ∷ stream) = piece ++ content stream

-- No piece is empty, so that an empty read is the end of the stream.
abbrev pub IsFlowing : Stream → Type 0
IsFlowing = All (λ piece. 0 < length piece)

take-drop : (n : ℕ) (b : Bytes) → take n b ++ drop n b ≡ b
take-drop zero b = refl
take-drop (suc n) [] = refl
take-drop (suc n) (x ∷ b) = ap (λ t. x ∷ t) (take-drop n b)

pub append_assoc : (a b c : Bytes) → (a ++ b) ++ c ≡ a ++ (b ++ c)
append_assoc [] b c = refl
append_assoc (x ∷ a) b c = ap (λ t. x ∷ t) (append_assoc a b c)

unread-content :
    (bytes : Bytes) (stream : Stream) → content (unread bytes stream) ≡ bytes ++ content stream
unread-content [] stream = refl
unread-content (b ∷ bytes) stream = refl

unread-IsFlowing :
    (bytes : Bytes) (stream : Stream) → IsFlowing stream → IsFlowing (unread bytes stream)
unread-IsFlowing [] stream h = h
unread-IsFlowing (b ∷ bytes) stream h = (omega arith, h)

-- What a read gives and what it leaves are the content.
read-content :
    (n : ℕ) (piece : Bytes) (stream : Stream)
    → take n piece ++ content (unread (drop n piece) stream) ≡ piece ++ content stream
read-content n piece stream =
    ap (λ t. take n piece ++ t) (unread-content (drop n piece) stream)
    ∙ sym (append_assoc (take n piece) (drop n piece) (content stream))
    ∙ ap (λ t. t ++ content stream) (take-drop n piece)

heads : {x y : ℕ} {s t : Bytes} → ◌≡◌ {A = Bytes} (x ∷ s) (y ∷ t) → x ≡ y
heads h = cc

tails : {x y : ℕ} {s t : Bytes} → ◌≡◌ {A = Bytes} (x ∷ s) (y ∷ t) → s ≡ t
tails h = cc

-- Of two ways to cut a byte string, the earlier one cuts the first part of the later one.
pub cuts :
    (a b c d : Bytes)
    → a ++ b ≡ c ++ d
    → length a ≤ length c
    → (between : Bytes) × (c ≡ a ++ between) × (b ≡ between ++ d)
cuts [] b c d h le = (c, refl, h)
cuts (x ∷ a) b [] d h le = absurd (omega arith)
cuts (x ∷ a) b (y ∷ c) d h le =
    let (between, hc, hb) = cuts a b c d (tails h) (omega arith) in
    let hx = heads h in (between, cc, hb)

nonzero : (n : ℕ) → (suc n == 0) ≡ false
nonzero n = ground arith

-- `front` is read out of a stream with `tail` left.
abbrev pub Reads : Result (Bytes × Stream) → Bytes → Bytes → Type 0
Reads outcome front tail =
    (rest : Stream) × (outcome ≡ ok (front, rest)) × (content rest ≡ tail) × IsFlowing rest

-- A round that reads a chunk, and then the other rounds.
Reads-later :
    (fuel n x : ℕ) (piece : Bytes) (stream : Stream) {front between tail : Bytes}
    → front ≡ take (suc n) (x ∷ piece) ++ between
    → Reads
        (read_rounds fuel
          (suc n - length (take (suc n) (x ∷ piece)))
          (unread (drop (suc n) (x ∷ piece)) stream))
        between
        tail
    → Reads (read_rounds (suc fuel) (suc n) ((x ∷ piece) ∷ stream)) front tail
unfolding read_rounds
Reads-later fuel n x piece stream hb (rest, hr, hc, live) =
    (rest, rw (nonzero (length (take n piece)), hr, hb) refl, hc, live)

Reads-rounds :
    (fuel n : ℕ) (stream : Stream) (front tail : Bytes)
    → n ≤ fuel
    → n ≡ length front
    → content stream ≡ front ++ tail
    → IsFlowing stream
    → Reads (read_rounds fuel n stream) front tail
unfolding read_rounds
Reads-rounds fuel zero stream [] tail hf hn hc live = (stream, refl, hc, live)
Reads-rounds fuel zero stream (b ∷ front) tail hf hn hc live = absurd (omega arith)
Reads-rounds zero (suc n) stream front tail hf hn hc live = absurd (omega arith)
Reads-rounds (suc fuel) (suc n) stream [] tail hf hn hc live = absurd (omega arith)
Reads-rounds (suc fuel) (suc n) [] (b ∷ front) tail hf hn hc live = cc
Reads-rounds (suc fuel) (suc n) ([] ∷ stream) front tail hf hn hc (h, live) = absurd (omega arith)
Reads-rounds (suc fuel) (suc n) ((x ∷ piece) ∷ stream) front tail hf hn hc (h, live) =
    let chunk = take (suc n) (x ∷ piece) in
    let left = unread (drop (suc n) (x ∷ piece)) stream in
    let (between, hb, ht) =
      cuts chunk (content left) front tail (read-content (suc n) (x ∷ piece) stream ∙ hc)
        (omega (arith, length-take n piece)) in
    Reads-later fuel n x piece stream hb (
      Reads-rounds fuel (suc n - length chunk) left between tail (omega arith)
        (omega (arith, ap length hb, length-append chunk between)) ht
        (unread-IsFlowing (drop (suc n) (x ∷ piece)) stream live))

closed_rounds :
    (fuel n : ℕ) (stream : Stream)
    → n ≤ fuel
    → length (content stream) < n
    → read_rounds fuel n stream ≡ err protocol_error
unfolding read_rounds
closed_rounds fuel zero stream hf h = absurd (omega arith)
closed_rounds zero (suc n) stream hf h = absurd (omega arith)
closed_rounds (suc fuel) (suc n) [] hf h = refl
closed_rounds (suc fuel) (suc n) ([] ∷ stream) hf h = refl
closed_rounds (suc fuel) (suc n) ((x ∷ piece) ∷ stream) hf h =
    rw
      (
        nonzero (length (take n piece)),
        closed_rounds fuel (suc n - length (take (suc n) (x ∷ piece)))
            (unread (drop (suc n) (x ∷ piece)) stream) (omega arith)
            (omega (
              arith,
              length-take n piece,
              ap length (read-content (suc n) (x ∷ piece) stream),
              length-append (take (suc n) (x ∷ piece))
                  (content (unread (drop (suc n) (x ∷ piece)) stream)),
            )),
      )
      refl

-- `read_exact` gives the next bytes of a stream, however they arrive.
pub Reads-exact :
    (stream : Stream) (front tail : Bytes)
    → content stream ≡ front ++ tail
    → IsFlowing stream
    → Reads (read_exact (length front) stream) front tail
unfolding read_exact
Reads-exact stream front tail hc live =
    Reads-rounds (length front) (length front) stream front tail (omega arith) refl hc live

-- A stream that ends before the bytes that are asked for is a protocol violation.
pub closed_exact :
    (n : ℕ) (stream : Stream)
    → length (content stream) < n
    → read_exact n stream ≡ err protocol_error
unfolding read_exact
closed_exact n stream h = closed_rounds n n stream (omega arith) h
