-- ===== src/Config.antt =====
-- config.py: the static settings that the modelled code reads. Money is in cents.
use refundagent.Common.{ℕ}
use refundagent.Common.Int.{ℤ, pos}

abbrev pub refund_approval_threshold : ℤ
refund_approval_threshold = pos 50000

abbrev pub approval_ttl_seconds : ℕ
approval_ttl_seconds = 900

abbrev pub verification_ttl_seconds : ℕ
verification_ttl_seconds = 900

abbrev pub max_agent_steps : ℕ
max_agent_steps = 12

abbrev pub max_invalid_outputs : ℕ
max_invalid_outputs = 3

abbrev pub denial_loop_threshold : ℕ
denial_loop_threshold = 3

abbrev pub authorized_order_count_max : ℕ
authorized_order_count_max = 100

abbrev pub prompt_total_max_bytes : ℕ
prompt_total_max_bytes = 131072

abbrev pub prompt_untrusted_field_max_chars : ℕ
prompt_untrusted_field_max_chars = 2000

abbrev pub prompt_memory_serialized_max_bytes : ℕ
prompt_memory_serialized_max_bytes = 65536

abbrev pub model_response_max_bytes : ℕ
model_response_max_bytes = 65536

abbrev pub model_worker_max_request_bytes : ℕ
model_worker_max_request_bytes = 524288

abbrev pub invalid_output_preview_max_bytes : ℕ
invalid_output_preview_max_bytes = 4096
