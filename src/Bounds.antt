-- ===== src/Bounds.antt =====
-- bounds.py: what is kept of a model output that does not parse.
pub mod Longest
mod Examples
use refundagent.Common.{ℕ, zero, suc, leb, Option, none, some, if◌then◌else◌, length, String}
use refundagent.Common.Bytes.{Bytes}
use refundagent.Common.Chars.{Chars, take}
use refundagent.Common.Utf8.{encode, decode}
use refundagent.Config

abbrev pub or_shorter : Option Chars → Chars → Chars
or_shorter none shorter = shorter
or_shorter (some s) shorter = s

-- The loop of `truncate_utf8_bytes`, on the number of bytes that are left.
unfoldable pub shrink : ℕ → Bytes → Chars
unfolding decode
shrink zero bytes = take zero bytes
shrink (suc k) bytes =
    let shorter = shrink k bytes in or_shorter (decode (take (suc k) bytes)) shorter

-- `truncate_utf8_bytes`; `none` is the UnicodeDecodeError of bytes that are within the limit.
unfoldable pub truncate_utf8_bytes : Bytes → ℕ → Option Chars
unfolding shrink
truncate_utf8_bytes text_bytes max_bytes =
    if leb (length text_bytes) max_bytes
    then decode text_bytes
    else some (shrink max_bytes text_bytes)

-- `bound_invalid_output_audit`, with `sha256` as the library's digest of bytes in hexadecimal
unfoldable pub bound_invalid_output_audit : (Bytes → String) → Chars → Option (Chars × ℕ × String)
unfolding encode truncate_utf8_bytes
bound_invalid_output_audit sha256 raw =
    with_preview (truncate_utf8_bytes (encode raw) Config.invalid_output_preview_max_bytes)
  where
    with_preview : Option Chars → Option (Chars × ℕ × String)
    with_preview none = none
    with_preview (some preview) = some (preview, length (encode raw), sha256 (encode raw))
