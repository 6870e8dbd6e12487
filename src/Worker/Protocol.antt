-- ===== src/Worker/Protocol.antt =====
-- The worker's protocol.py: messages on a binary stream. A read gives at most the bytes that are asked
-- for, and fewer when the pipe has delivered fewer; an empty one means that the stream is closed.
pub mod Exact
pub mod Messages
use refundagent.Common.{
  ℕ, zero, suc, Bool, true, false, List, [], ◌∷◌, ◌++◌, if◌then◌else◌, length, ltb, ◌-◌, ◌==◌,
}
use refundagent.Common.Bytes.{Bytes, drop, to_bytes, from_bytes}
use refundagent.Common.Chars.{take}
use refundagent.Domain.Result.{
  Result, ok, err, ◌>>=◌, ◌>>◌, raise_if, protocol_error, assertion_error,
}

-- What is still to come until the pipe is closed, in the pieces in which the pipe delivers it. A pipe
-- that stays open and delivers nothing blocks the worker, and has no counterpart here: the gateway's
-- timeout ends that wait.
abbrev pub Stream : Type 0
Stream = List Bytes

-- The piece without its first n bytes, when there are any.
abbrev pub unread : Bytes → Stream → Stream
unread [] stream = stream
unread (b ∷ bytes) stream = (b ∷ bytes) ∷ stream

-- `stream.read(n)`
abbrev pub read : ℕ → Stream → Bytes × Stream
read n [] = ([], [])
read n (piece ∷ stream) = (take n piece, unread (drop n piece) stream)

-- The loop of `_read_exact` with what remains, on fuel: a round reads a byte at the least, so that
-- `remaining` rounds are enough.
unfoldable pub read_rounds : ℕ → ℕ → Stream → Result (Bytes × Stream)
read_rounds fuel zero stream = ok ([], stream)
read_rounds zero (suc remaining) stream = err assertion_error
read_rounds (suc fuel) (suc remaining) stream =
    let chunk = (read (suc remaining) stream).0 in
    let rest = read_rounds fuel (suc remaining - length chunk) (read (suc remaining) stream).1 in
    do
      raise_if (length chunk == 0) protocol_error
      (bytes, later) ← rest
      ok (chunk ++ bytes, later)

-- `_read_exact`
unfoldable pub read_exact : ℕ → Stream → Result (Bytes × Stream)
unfolding read_rounds
read_exact size stream = read_rounds size size stream

-- `read_message`
unfoldable pub read_message : ℕ → Stream → Result (Bytes × Stream)
unfolding read_exact from_bytes
read_message max_bytes stream = do
  (header, body) ← read_exact 4 stream
  raise_if (ltb max_bytes (from_bytes 0 header)) protocol_error
  read_exact (from_bytes 0 header) body

-- `write_message`: the bytes that are written.
unfoldable pub write_message : ℕ → Bytes → Result Bytes
unfolding to_bytes
write_message max_bytes payload = do
  raise_if (ltb max_bytes (length payload)) protocol_error
  header ← to_bytes 4 (length payload)
  ok (header ++ payload)
