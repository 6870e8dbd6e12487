-- ===== src/Worker/Protocol/Messages.antt =====
-- A message that is written is read, whatever the pipe makes of it.
use refundagent.Common.{
  ℕ, Bool, true, false, [], ◌++◌, length, ltb, ◌≡◌, refl, ◌≤◌, ◌<◌, ◌^◌, ◌∙◌, ap, sym, arith, ◌⊎◌,
  inl, inr, length-append,
}
use refundagent.Common.Bytes.{Bytes, to_bytes, last_bytes}
use refundagent.Common.Bytes.RoundTrip.{from_bytes-last_bytes}
use refundagent.Domain.Result.{Result, ok, err, ◌>>◌, raise_if, protocol_error}
use refundagent.Worker.Protocol.{Stream, read_message, write_message}
use refundagent.Worker.Protocol.Exact.{
  content, IsFlowing, Reads, Reads-exact, closed_exact, append_assoc, cuts,
}

pub not_above : (limit n : ℕ) → n ≤ limit → ltb limit n ≡ false
not_above limit n h = ground arith

-- The frame of a payload.
abbrev pub frame_of : Bytes → Bytes
frame_of payload = last_bytes 4 (length payload) [] ++ payload

pub Reads-message :
    (limit : ℕ) (stream : Stream) (payload tail : Bytes)
    → length payload ≤ limit
    → length payload < 256 ^ 4
    → content stream ≡ frame_of payload ++ tail
    → IsFlowing stream
    → Reads (read_message limit stream) payload tail
unfolding read_message last_bytes
Reads-message limit stream payload tail hl hw hc live =
    let header = last_bytes 4 (length payload) [] in
    let (body, h1, c1, l1) =
      Reads-exact stream header (payload ++ tail) (hc ∙ append_assoc header payload tail) live in
    let (rest, h2, c2, l2) = Reads-exact body payload tail c1 l1 in
    (
      rest,
      rw
          (
            h1,
            from_bytes-last_bytes 4 (length payload) [] hw,
            not_above limit (length payload) hl,
            h2,
          )
          refl,
      c2,
      l2,
    )

pub written :
    (limit : ℕ) (payload : Bytes)
    → length payload ≤ limit
    → length payload < 256 ^ 4
    → write_message limit payload ≡ ok (frame_of payload)
unfolding write_message to_bytes
written limit payload hl hw = ground arith

wrote :
    (limit : ℕ) (payload sent : Bytes)
    → write_message limit payload ≡ ok sent
    → (length payload < 256 ^ 4) × (sent ≡ frame_of payload)
unfolding write_message to_bytes
wrote limit payload sent h = (ground arith, ground arith)

pub short_or_long : (a b : ℕ) → (a < b) ⊎ (b ≤ a)
short_or_long a b = ground arith

refused :
    (long : Bool) (rest : Result (Bytes × Stream))
    → rest ≡ err protocol_error
    → (raise_if long protocol_error >> rest) ≡ err protocol_error
refused true rest h = refl
refused false rest h = h

-- What `write_message` wrote within its limit is what `read_message` returns when its own limit allows it:
-- this payload and no byte of what follows, for every way in which the pipe cuts the bytes up.
pub read_message-write_message :
    (response_max request_max : ℕ) (stream : Stream) (payload sent tail : Bytes)
    → write_message response_max payload ≡ ok sent
    → length payload ≤ request_max
    → content stream ≡ sent ++ tail
    → IsFlowing stream
    → Reads (read_message request_max stream) payload tail
read_message-write_message response_max request_max stream payload sent tail hw hl hc live =
    let (fits, same) = wrote response_max payload sent hw in
    Reads-message request_max stream payload tail hl fits (hc ∙ ap (λ s. s ++ tail) same) live

-- When the stream is closed before a message is complete, be it before its header, within it or
-- within its payload, reading it is a protocol violation, and nothing of the message is returned.
pub read_message-cut_off :
    (limit : ℕ) (stream : Stream) (payload missing : Bytes)
    → length payload < 256 ^ 4
    → content stream ++ missing ≡ frame_of payload
    → 0 < length missing
    → IsFlowing stream
    → read_message limit stream ≡ err protocol_error
unfolding read_message last_bytes
read_message-cut_off limit stream payload missing hw hc hm live =
    elim (short_or_long (length (content stream)) 4) [
      | inl short ↦ rw (closed_exact 4 stream short) refl
      | inr long ↦
          let header = last_bytes 4 (length payload) [] in
          let (part, h1, h2) = cuts header payload (content stream) missing (sym hc) long in
          let (body, h3, c3, l3) = Reads-exact stream header part h1 live in
          rw (h3, from_bytes-last_bytes 4 (length payload) [] hw)
            (refused (ltb limit (length payload)) _ (
              closed_exact (length payload) body
                (omega (arith, ap length h2, length-append part missing, ap length c3))))
    ]
