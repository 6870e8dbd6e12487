-- ===== src/Agent/Prompt/Untrusted.antt =====
-- agent/prompt.py: `_neutralize_framing_sentinels` and `_bound_untrusted_text`.
pub mod Framing
use refundagent.Common.{ℕ, ◌-◌, leb, List, [], ◌∷◌, ◌++◌, length, if◌then◌else◌}
use refundagent.Common.Chars.{Chars, codes, take, replace_from}
use refundagent.Config

abbrev pub case_memory_begin : Chars
case_memory_begin = codes "=== CASE MEMORY ==="

abbrev pub case_memory_end : Chars
case_memory_end = codes "=== END CASE MEMORY ==="

abbrev pub structured_state_begin : Chars
structured_state_begin = codes "=== STRUCTURED STATE ==="

abbrev pub structured_state_end : Chars
structured_state_end = codes "=== END STRUCTURED STATE ==="

-- The texts that frame the regions of a prompt and the tags of provenance.
abbrev pub framing_sentinels : List Chars
framing_sentinels =
    case_memory_begin
    ∷ case_memory_end
    ∷ structured_state_begin
    ∷ structured_state_end
    ∷ codes "[UNTRUSTED_CUSTOMER]"
    ∷ codes "[UNTRUSTED_MODEL]"
    ∷ codes "[SYSTEM_FEEDBACK]"
    ∷ []

abbrev pub neutralized_placeholder : Chars
neutralized_placeholder = codes "[neutralized]"

abbrev pub memory_truncation_marker : Chars
memory_truncation_marker = codes "…truncated"

-- `text.replace(sentinel, _NEUTRALIZED_PLACEHOLDER)`
abbrev pub replace_sentinel : Chars → Chars → Chars
replace_sentinel sentinel text =
    replace_from 0 sentinel (length sentinel - 1) neutralized_placeholder text

-- The loop over the sentinels.
unfoldable pub neutralize : List Chars → Chars → Chars
unfolding replace_from
neutralize [] text = text
neutralize (s ∷ ss) text = neutralize ss (replace_sentinel s text)

abbrev pub neutralize_framing_sentinels : Chars → Chars
neutralize_framing_sentinels text = neutralize framing_sentinels text

abbrev pub content_budget : ℕ
content_budget = Config.prompt_untrusted_field_max_chars - length memory_truncation_marker

abbrev pub bounded : Chars → Chars
bounded neutralized =
    if leb (length neutralized) Config.prompt_untrusted_field_max_chars
    then neutralized
    else take content_budget neutralized ++ memory_truncation_marker

unfoldable pub bound_untrusted_text : Chars → Chars
unfolding neutralize
bound_untrusted_text text = bounded (neutralize_framing_sentinels text)
