-- ===== src/Bounds/Examples.antt =====
-- The theorem on the record of an invalid output at a short text, and tests of the truncation.
use refundagent.Common.{◌≡◌, refl, some, [], ◌∷◌, length, String}
use refundagent.Bounds.{shrink, truncate_utf8_bytes, bound_invalid_output_audit}
use refundagent.Bounds.Longest.{IsLongest, bound_invalid_output_audit-IsLongest}
use refundagent.Common.Bytes.{Bytes}
use refundagent.Common.Chars.{Chars}
use refundagent.Common.Utf8.{encode, decode, decode_from}
use refundagent.Config

-- "aé€"
abbrev text : Chars
text = 97 ∷ 233 ∷ 8364 ∷ []

-- The limit falls within the last character.
truncate_test : truncate_utf8_bytes (encode text) 5 ≡ some (97 ∷ 233 ∷ [])
unfolding truncate_utf8_bytes shrink encode decode decode_from
truncate_test = refl

abbrev no_digest : Bytes → String
no_digest bytes = "digest"

bound_invalid_output_audit-IsLongest_example :
    (preview : Chars) × (bound_invalid_output_audit no_digest text
      ≡ some (preview, length (encode text), no_digest (encode text)))
    × IsLongest Config.invalid_output_preview_max_bytes text preview
bound_invalid_output_audit-IsLongest_example =
    bound_invalid_output_audit-IsLongest no_digest text (refl, (refl, (refl, tt)))
