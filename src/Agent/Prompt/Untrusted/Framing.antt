-- ===== src/Agent/Prompt/Untrusted/Framing.antt =====
-- A text that has gone through `bound_untrusted_text` holds none of the prompt's framing sentinels.
use refundagent.Common.{◌≤◌, List, length, All, ◌≡◌, false}
use refundagent.Common.Chars.{Chars, occurs}
use refundagent.Agent.Prompt.Untrusted.{framing_sentinels}
use refundagent.Config

abbrev Lacks : List Chars → Chars → Type 0
Lacks ss t = All (λ s. occurs s t ≡ false) ss

-- A text that a prompt may quote.
pub record IsHarmless (t : Chars) : Type 0 where
  pub unframed : All (λ s. occurs s t ≡ false) framing_sentinels
  pub short : length t ≤ Config.prompt_untrusted_field_max_chars
