-- ===== src/Agent/Serialization/RoundTrip.antt =====
-- What the worker's request holds is what the prompt held.
use refundagent.Common.{
  ℕ, zero, suc, ◌+◌, ◌-◌, ◌*◌, ◌/◌, ◌%◌, ◌<◌, ◌==◌, leb, true, false, Option, none, some, List, [],
  ◌∷◌, ◌++◌, map, All, ◌≡◌, refl, ◌∙◌, ap, inl, inr, Bool-cases, ltb→lt, ltb, arith,
}
use refundagent.Common.Chars.{Chars, same_text, digit, digits_onto, decimal, last_digits}
use refundagent.Common.Int.{ℤ, pos, negsuc}
use refundagent.Common.Json.{Json, items}
use refundagent.Agent.Prompt.Build.{
  Prompt, order_document, state_document, str_or_null, refund_status_text,
}
use refundagent.Agent.Prompt.State.{AgentState, OrderView}
use refundagent.Agent.Serialization.{
  prompt_document, field_of, as_text, as_text_or_null, each, read_money, read_decimals, money_of,
  parse_money, order_status_of, refund_status_of, optional_status, order_of, state_of_document,
  deserialize_prompt,
}
use refundagent.Domain.Enums.{OrderStatus, RefundStatus}
use refundagent.Domain.Result.{Result, ok}
use refundagent.Domain.Spelling.{
  money_digits, format_money, order_status_value, refund_status_value,
}

-- The number that digits stand for, after those read so far.
abbrev number : ℕ → List ℕ → ℕ
number acc [] = acc
number acc (d ∷ ds) = number (acc * 10 + d) ds

abbrev AreDigits : List ℕ → Type 0
AreDigits ds = All (λ d. d < 10) ds

number-digits_onto :
    (rounds n : ℕ) (rest : List ℕ)
    → n < rounds
    → number 0 (digits_onto rounds n rest) ≡ number n rest
unfolding digits_onto
number-digits_onto zero n rest h = absurd (omega arith)
number-digits_onto (suc rounds) n rest h = elim (Bool-cases (ltb n 10)) [
  | inl one ↦ rw one (ap (λ m. number m rest) (omega arith))
  | inr more ↦ rw more (
      number-digits_onto rounds (n / 10) ((n % 10) ∷ rest) (ground arith)
      ∙ ap (λ m. number m rest) (omega arith))
]

digits_onto-AreDigits :
    (rounds n : ℕ) (rest : List ℕ) → AreDigits rest → AreDigits (digits_onto rounds n rest)
unfolding digits_onto
digits_onto-AreDigits zero n rest h = h
digits_onto-AreDigits (suc rounds) n rest h = elim (Bool-cases (ltb n 10)) [
  | inl one ↦ rw one (ltb→lt n 10 one, h)
  | inr more ↦ rw more (digits_onto-AreDigits rounds (n / 10) _ (omega arith, h))
]

value-digit : (d : ℕ) → digit d - b'0' ≡ d
value-digit d = omega arith

not_point : (d : ℕ) → (digit d == b'.') ≡ false
not_point d = ground arith

read-digits :
    (acc : ℕ) (ds : List ℕ) (t : Chars)
    → AreDigits ds
    → read_money acc (map digit ds ++ b'.' ∷ t) ≡ read_decimals (number acc ds) t
unfolding read_money
read-digits acc [] t h = refl
read-digits acc (d ∷ ds) t (small, h) =
    let is : leb b'0' (digit d) ≡ true = ground arith in
    let is' : leb (digit d) b'9' ≡ true = ground arith in
    rw (not_point d, is, is', value-digit d) (read-digits (acc * 10 + d) ds t h)

parse-plain :
    (ds : List ℕ) (t : Chars)
    → parse_money (map digit ds ++ b'.' ∷ t)
      ≡ money_of false (read_money 0 (map digit ds ++ b'.' ∷ t))
unfolding parse_money
parse-plain [] t = refl
parse-plain (d ∷ ds) t =
    let not_minus : (digit d == b'-') ≡ false = ground arith in rw not_minus refl

two_decimals :
    (whole a b : ℕ)
    → a < 10
    → b < 10
    → read_decimals whole (digit a ∷ digit b ∷ []) ≡ some (whole * 100 + (a * 10 + b))
two_decimals whole a b ha hb = ground arith

read-money_digits : (n : ℕ) → read_money 0 (money_digits n) ≡ some n
unfolding money_digits decimal last_digits
read-money_digits n =
    read-digits 0 (digits_onto (suc (n / 100)) (n / 100) []) _
      (digits_onto-AreDigits (suc (n / 100)) (n / 100) [] tt)
    ∙ rw (number-digits_onto (suc (n / 100)) (n / 100) [] (omega arith)) (
        two_decimals (n / 100) (n / 10 % 10) (n % 10) (omega arith) (omega arith)
        ∙ ap (λ m. some m) (omega arith))

parse-money_digits : (n : ℕ) → parse_money (money_digits n) ≡ some (pos n)
unfolding money_digits decimal
parse-money_digits n =
    parse-plain (digits_onto (suc (n / 100)) (n / 100) []) _
    ∙ ap (λ r. money_of false r) (read-money_digits n)

pub parse-format_money : (z : ℤ) → parse_money (format_money z) ≡ some z
unfolding parse_money format_money
parse-format_money (pos n) = parse-money_digits n
parse-format_money (negsuc n) = rw (read-money_digits (suc n)) (ap (λ m. some m) (ground arith))

order_status-value : (s : OrderStatus) → order_status_of (order_status_value s) ≡ ok s
unfolding order_status_of order_status_value same_text
order_status-value OrderStatus.delivered = refl
order_status-value OrderStatus.delivered_damaged = refl
order_status-value OrderStatus.shipped = refl

optional_status-text : (s : Option RefundStatus) → optional_status (refund_status_text s) ≡ ok s
unfolding refund_status_of refund_status_value same_text
optional_status-text none = refl
optional_status-text (some RefundStatus.pending_approval) = refl
optional_status-text (some RefundStatus.approved) = refl
optional_status-text (some RefundStatus.executed) = refl
optional_status-text (some RefundStatus.rejected) = refl
optional_status-text (some RefundStatus.expired) = refl

pub text_or_null : (s : Option Chars) → as_text_or_null (str_or_null s) ≡ ok s
text_or_null none = refl
text_or_null (some s) = refl

pub each-items :
    {A : Type 0} (f : Json → Result A) (g : A → Json) (xs : List A)
    → ((x : A) → f (g x) ≡ ok x)
    → each f (items (map g xs)) ≡ ok xs
unfolding each
each-items f g [] h = refl
each-items f g (x ∷ xs) h = rw (h x, each-items f g xs h) refl

order_of-document : (order : OrderView) → order_of (order_document order) ≡ ok order
unfolding order_of order_document field_of same_text
order_of-document order = rw (parse-format_money order.total, order_status-value order.status) refl

state_of-document : (state : AgentState) → state_of_document (state_document state) ≡ ok state
unfolding state_of_document state_document field_of same_text
state_of-document state =
    rw
      (
        each-items order_of order_document state.orders order_of-document,
        each-items as_text (λ s. Json.str s) state.menu (λ s. refl),
        text_or_null (refund_status_text state.last_refund_status),
        text_or_null state.linked_order_id,
        optional_status-text state.last_refund_status,
      )
      refl

-- The document of a serialized prompt is read back as this prompt: its text, and of its state each
-- order with its item, total and status, the refund's status, the flags and the menu.
pub deserialize-prompt_document :
    (prompt : Prompt) → deserialize_prompt (prompt_document prompt) ≡ ok prompt
unfolding deserialize_prompt prompt_document field_of same_text
deserialize-prompt_document prompt = rw (state_of-document prompt.state) refl
