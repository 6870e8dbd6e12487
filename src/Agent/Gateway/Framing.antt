-- ===== src/Agent/Gateway/Framing.antt =====
-- The frame of a message determines it, and nothing but a frame is read.
use refundagent.Common.{
  ℕ, suc, true, false, not, [], ◌∷◌, ◌++◌, length, ltb, ◌==◌, ◌≡◌, refl, arith, ◌<◌, ◌^◌, sym, ◌∙◌,
  ap, All, ==-refl, subst, ◌↔◌,
}
use refundagent.Common.Bytes.{Bytes, to_bytes, from_bytes, last_bytes}
use refundagent.Common.Bytes.RoundTrip.{
  from_bytes-last_bytes, last_bytes-from_bytes, from_bytes-bound,
}
use refundagent.Agent.Gateway.{frame_message, read_framed_message}
use refundagent.Domain.Result.{Result, ok, raise_if-eq-ok}

below : (a b : ℕ) → a < b → ltb a b ≡ true
below a b h = ground arith

not_below : (n : ℕ) → ltb (suc (suc (suc (suc n)))) 4 ≡ false
not_below n = ground arith

-- A number's four bytes and then the payload, for a payload whose length has four bytes.
pub framed :
    (payload : Bytes)
    → length payload < 256 ^ 4
    → frame_message payload ≡ ok (last_bytes 4 (length payload) [] ++ payload)
unfolding frame_message to_bytes
framed payload h = rw (below (length payload) (256 ^ 4) h) refl

pub reads :
    (payload : Bytes)
    → length payload < 256 ^ 4
    → read_framed_message (last_bytes 4 (length payload) [] ++ payload) ≡ ok payload
unfolding read_framed_message last_bytes
reads payload h =
    rw
      (
        not_below (length payload),
        from_bytes-last_bytes 4 (length payload) [] h,
        ==-refl (length payload),
      )
      refl

abbrev pub IsByte : ℕ → Type 0
IsByte b = b < 256

ok-injective : {x y : Bytes} → Result.ok x ≡ ok y → y ≡ x
ok-injective h = cc

same_length : (m n : ℕ) → not (m == n) ≡ false → m ≡ n
same_length m n h = ground arith

frame_of_body :
    (a b c d : ℕ) (body payload : Bytes)
    → (IsByte a × IsByte b × IsByte c × IsByte d)
    → (not (length body == from_bytes 0 (a ∷ b ∷ c ∷ d ∷ [])) ≡ false)
      × (Result.ok body ≡ ok payload)
    → frame_message payload ≡ ok (a ∷ b ∷ c ∷ d ∷ body)
frame_of_body a b c d body payload (ha, hb, hc, hd) (hl, hp) =
    ap frame_message (ok-injective hp)
    ∙ framed body (subst (λ n. n < 256 ^ 4) (sym same) (from_bytes-bound a b c d ha hb hc hd))
    ∙ ap (λ n. ok (last_bytes 4 n [] ++ body)) same
    ∙ ap (λ header. ok (header ++ body)) (last_bytes-from_bytes a b c d ha hb hc hd)
  where
    same : length body ≡ from_bytes 0 (a ∷ b ∷ c ∷ d ∷ [])
    same = same_length (length body) (from_bytes 0 (a ∷ b ∷ c ∷ d ∷ [])) hl

-- What is read as a frame: four bytes at the least, which say the length of the rest.
read_back :
    (frame payload : Bytes)
    → All IsByte frame
    → read_framed_message frame ≡ ok payload
    → frame_message payload ≡ ok frame
unfolding read_framed_message
read_back [] payload hb h = cc
read_back (a ∷ []) payload hb h = cc
read_back (a ∷ b ∷ []) payload hb h = cc
read_back (a ∷ b ∷ c ∷ []) payload hb h = cc
read_back (a ∷ b ∷ c ∷ d ∷ body) payload (ha, (hb, (hc, (hd, _)))) h =
    frame_of_body a b c d body payload (ha, hb, hc, hd)
      (raise_if-eq-ok _ _ _ (raise_if-eq-ok _ _ _ h).1)

four_bytes : (frame payload : Bytes) → frame_message payload ≡ ok frame → length payload < 256 ^ 4
unfolding frame_message to_bytes
four_bytes frame payload h = ground arith

-- A byte string is the frame of a payload exactly when reading it as a frame returns this payload:
-- a message is read back as it was sent, and a frame that is cut off, that runs on, or that states
-- another length is refused.
pub frame_message-read_framed_message :
    (payload frame : Bytes)
    → All IsByte frame
    → (frame_message payload ≡ ok frame) ↔ (read_framed_message frame ≡ ok payload)
frame_message-read_framed_message payload frame hb = (
  λ h.
      subst (λ f. read_framed_message f ≡ ok payload)
        (ok-injective (sym h ∙ framed payload (four_bytes frame payload h)))
        (reads payload (four_bytes frame payload h)),
  read_back frame payload hb,
)
