-- ===== src/Agent/Boundary.antt =====
-- agent/model_boundary.py, agent/parsing.py, and what the loop takes from outside: the model, what
-- json.loads and pydantic make of its output, and the digest of an output that does not parse.
pub mod Accepts
use Prim.Native.String.{◌++◌ as append_str}
use text.Mathlib.Text.{◌==◌ as str_eq}
use refundagent.Common.{
  ℕ, String, Bool, not, ◌&&◌, ◌||◌, leb, contains, Option, none, some, List, [], ◌∷◌, if◌then◌else◌,
}
use refundagent.Common.Bytes.{Bytes}
use refundagent.Common.Chars.{Chars, codes}
use refundagent.Actions.{Action}
use refundagent.Agent.Prompt.Build.{Prompt}
use refundagent.Domain.Decimal.{Decimal, is_finite, over_scaled}
use refundagent.Domain.Enums.{EscalationOrigin}
use refundagent.Domain.Texts.{CaseId, Piece, Text}
use refundagent.Gate.Operations.{escalate_case, by_reason}
use refundagent.Store.Session.{Tx, World, from_state, pure, ◌>>◌}

-- What json.loads and pydantic's validation of its result as an action come to.
pub data Decoded : Type 0 where
  -- JSONDecodeError, by its message
  malformed : String → Decoded
  -- another exception of json.loads, by its type's name: RecursionError on deep nesting
  undecodable : String → Decoded
  -- JSON text that is no object
  no_object : Decoded
  -- ValidationError, by the location and the message of its first error
  invalid : List String → String → Decoded
  decoded : Action → Decoded

-- A call of the model within its time limit: an exact string, or an exception, by its type's name.
pub data ModelReply : Type 0 where
  failed : String → ModelReply
  answered : String → ModelReply

pub record Environment : Type 0 where
  pub model : Prompt → World → ModelReply
  pub decode : Chars → Decoded
  -- hashlib's digest, in hexadecimal
  pub sha256 : Bytes → String

pub data ParseOutcome : Type 0 where
  parse_success : Action → ParseOutcome
  parse_failure : String → ParseOutcome

-- `_propose_refund_decimal_error`
unfoldable pub decimal_error : Decimal → Option String
decimal_error amount =
    if not (is_finite amount)
    then some "propose_refund amount must be finite"
    else if over_scaled amount
    then some "propose_refund amount must have at most two decimal places"
    else none

abbrev pub unless_error : Action → Option String → ParseOutcome
unless_error a none = ParseOutcome.parse_success a
unless_error a (some e) = ParseOutcome.parse_failure e

abbrev pub check_decimal : Action → ParseOutcome
check_decimal (Action.propose_refund amount) =
    unless_error (Action.propose_refund amount) (decimal_error amount)
check_decimal a = ParseOutcome.parse_success a

-- `str.isspace` on a character
abbrev is_space : ℕ → Bool
is_space c =
    leb 9 c && leb c 13
    || leb 28 c && leb c 32
    || leb 8192 c && leb c 8202
    || contains (133 ∷ 160 ∷ 5760 ∷ 8232 ∷ 8233 ∷ 8239 ∷ 8287 ∷ 12288 ∷ []) c

unfoldable pub strip_left : Chars → Chars
strip_left [] = []
strip_left (c ∷ s) = let rest = strip_left s in if is_space c then rest else c ∷ s

abbrev keep_end : ℕ → Chars → Chars
keep_end c [] = if is_space c then [] else c ∷ []
keep_end c (d ∷ s) = c ∷ d ∷ s

unfoldable pub strip_right : Chars → Chars
strip_right [] = []
strip_right (c ∷ s) = keep_end c (strip_right s)

-- `raw.strip()`
unfoldable pub strip : Chars → Chars
unfolding strip_left strip_right
strip s = strip_right (strip_left s)

-- `_format_error_location`
abbrev pub format_error_location : List String → String
format_error_location [] = ""
format_error_location (segment ∷ []) = segment
format_error_location (segment ∷ next ∷ rest) =
    append_str segment (append_str "." (format_error_location (next ∷ rest)))

abbrev located : String → String → String
located location message =
    if str_eq location "" then message else append_str location (append_str ": " message)

-- `_format_validation_error`
abbrev pub format_validation_error : List String → String → String
format_validation_error location message = located (format_error_location location) message

-- What `parse` comes to: an outcome, or an exception that passes through it, by its type's name.
pub data Parsed : Type 0 where
  parsed : ParseOutcome → Parsed
  raised : String → Parsed

abbrev failure : String → Parsed
failure error = Parsed.parsed (ParseOutcome.parse_failure error)

abbrev pub check_decoded : Decoded → Parsed
check_decoded (Decoded.malformed message) = failure (append_str "malformed JSON: " message)
check_decoded (Decoded.undecodable exception) = Parsed.raised exception
check_decoded Decoded.no_object = failure "model output must be a JSON object"
check_decoded (Decoded.invalid location message) =
    failure (format_validation_error location message)
check_decoded (Decoded.decoded a) = Parsed.parsed (check_decimal a)

abbrev pub parse_stripped : Environment → Chars → Parsed
parse_stripped env [] = failure "empty model output"
parse_stripped env (c ∷ s) = check_decoded (env.decode (c ∷ s))

-- `parse`
unfoldable pub parse : Environment → String → Parsed
unfolding decimal_error strip
parse env raw = parse_stripped env (strip (codes raw))

-- `_model_failure_reason`
abbrev model_failure_reason : String → Text
model_failure_reason exception =
    Piece.lit "The model call failed with an exception of type "
    ∷ Piece.lit exception
    ∷ Piece.lit "."
    ∷ []

unfoldable pub close_after_failure : CaseId → String → Tx (Option (String × ParseOutcome))
close_after_failure k exception = do
  escalate_case k EscalationOrigin.model_failure (by_reason (model_failure_reason exception))
  pure none

unfoldable pub handle_parsed : CaseId → String → Parsed → Tx (Option (String × ParseOutcome))
unfolding close_after_failure
handle_parsed k raw (Parsed.parsed outcome) = pure (some (raw, outcome))
handle_parsed k raw (Parsed.raised exception) = close_after_failure k exception

-- The raw output and its outcome, or nothing, where the case was closed after a failure.
unfoldable pub handle_reply :
    Environment → CaseId → ModelReply → Tx (Option (String × ParseOutcome))
unfolding parse handle_parsed
handle_reply env k (ModelReply.answered raw) = handle_parsed k raw (parse env raw)
handle_reply env k (ModelReply.failed exception) = close_after_failure k exception

unfoldable pub invoke_model_boundary :
    Environment → CaseId → Prompt → Tx (Option (String × ParseOutcome))
unfolding handle_reply
invoke_model_boundary env k prompt = from_state (λ w. handle_reply env k (env.model prompt w))
