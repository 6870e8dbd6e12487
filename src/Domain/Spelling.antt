-- ===== src/Domain/Spelling.antt =====
-- How values are spelled: identifiers with their prefixes (ids.py, adapters/payment.py and the seed's
-- orders), money and Python's `Decimal`, and the texts that the program composes.
use refundagent.Common.{
  ℕ, zero, suc, ◌+◌, ◌-◌, ◌/◌, leb, Bool, true, false, ◌&&◌, not, [], ◌∷◌, ◌++◌, map, if◌then◌else◌,
  length,
}
use refundagent.Common.Chars.{Chars, codes, decimal, digit, last_digits, take}
use refundagent.Common.Int.{ℤ, pos, negsuc, pos_part, neg_part, leb_ℤ, sub_ℕ}
use refundagent.Domain.Decimal.{Decimal}
use refundagent.Domain.Enums.{OrderStatus, RefundStatus, CaseOutcome}
use refundagent.Domain.Payload.{ActionName}
use refundagent.Domain.Texts.{OrderId, RefundId, Text, Piece}

unfoldable pub order_name : OrderId → Chars
order_name o = codes "ORD-" ++ decimal o

unfoldable pub refund_name : RefundId → Chars
refund_name r = codes "rfnd_" ++ decimal r

-- The reference that the mock provider makes of the refund's id.
unfoldable pub provider_ref_name : RefundId → Chars
unfolding refund_name
provider_ref_name r = codes "pay_" ++ refund_name r

-- n cents as a number with two decimals
unfoldable pub money_digits : ℕ → Chars
money_digits n = decimal (n / 100) ++ b'.' ∷ map digit (last_digits 2 n [])

-- `format(amount, "f")` and `str(amount)` for money of two decimals
unfoldable pub format_money : ℤ → Chars
unfolding money_digits
format_money (pos n) = money_digits n
format_money (negsuc n) = b'-' ∷ money_digits (suc n)

abbrev drop : ℕ → Chars → Chars
drop zero s = s
drop (suc n) [] = []
drop (suc n) (c ∷ s) = drop n s

abbrev zeros : ℕ → Chars
zeros zero = []
zeros (suc n) = b'0' ∷ zeros n

-- "%+d"
abbrev signed_digits : ℤ → Chars
signed_digits (pos n) = b'+' ∷ decimal n
signed_digits (negsuc n) = b'-' ∷ decimal (suc n)

abbrev minus_if : Bool → Chars → Chars
minus_if true s = b'-' ∷ s
minus_if false s = s

-- The digits with no exponent: `left` of them stand before the point, where `left` may be negative.
abbrev plain : Chars → ℤ → Chars
plain ds (negsuc n) = b'0' ∷ b'.' ∷ (zeros (suc n) ++ ds)
plain ds (pos zero) = b'0' ∷ b'.' ∷ ds
plain ds (pos (suc n)) =
    if leb (length ds) (suc n)
    then ds ++ zeros (suc n - length ds)
    else take (suc n) ds ++ b'.' ∷ drop (suc n) ds

-- One digit before the point, and an exponent.
abbrev scientific : Chars → ℤ → Chars
scientific [] e = []
scientific (c ∷ []) e = c ∷ b'E' ∷ signed_digits e
scientific (c ∷ d ∷ ds) e = (c ∷ b'.' ∷ d ∷ ds) ++ b'E' ∷ signed_digits e

-- A coefficient's digits, the number of them that stand before the point, and the exponent.
abbrev spell_digits : Chars → ℤ → ℤ → Chars
spell_digits ds left e =
    if leb_ℤ e (pos 0) && not (leb_ℤ left (negsuc 5))
    then plain ds left
    else scientific ds (sub_ℕ (pos_part left) (neg_part left + 1))

-- `str(d)`
unfoldable pub str_decimal : Decimal → Chars
str_decimal Decimal.nan = codes "NaN"
str_decimal (Decimal.infinity s) = minus_if s (codes "Infinity")
str_decimal (Decimal.finite s c e) =
    let ds = decimal c in
    minus_if s (spell_digits ds (sub_ℕ (length ds + pos_part e) (neg_part e)) e)

abbrev spell_piece : Piece → Chars
spell_piece (Piece.lit s) = codes s
-- the identifier in a denial's reason is the order's
spell_piece (Piece.id o) = order_name o
spell_piece (Piece.amount d) = str_decimal d
spell_piece (Piece.cents n) = format_money n

unfoldable pub spell : Text → Chars
unfolding order_name str_decimal format_money
spell [] = []
spell (p ∷ ps) = spell_piece p ++ spell ps

-- The values of domain/enums.py that are written out, and the names of the actions.
unfoldable pub order_status_value : OrderStatus → Chars
order_status_value OrderStatus.delivered = codes "delivered"
order_status_value OrderStatus.delivered_damaged = codes "delivered_damaged"
order_status_value OrderStatus.shipped = codes "shipped"

unfoldable pub refund_status_value : RefundStatus → Chars
refund_status_value RefundStatus.pending_approval = codes "pending_approval"
refund_status_value RefundStatus.approved = codes "approved"
refund_status_value RefundStatus.executed = codes "executed"
refund_status_value RefundStatus.rejected = codes "rejected"
refund_status_value RefundStatus.expired = codes "expired"

unfoldable pub case_outcome_value : CaseOutcome → Chars
case_outcome_value CaseOutcome.finished = codes "finished"
case_outcome_value CaseOutcome.escalated = codes "escalated"
case_outcome_value CaseOutcome.step_limit = codes "step_limit"
case_outcome_value CaseOutcome.parse_limit = codes "parse_limit"
case_outcome_value CaseOutcome.model_failure = codes "model_failure"

unfoldable pub action_value : ActionName → Chars
action_value ActionName.get_orders = codes "get_orders"
action_value ActionName.link_order = codes "link_order"
action_value ActionName.propose_refund = codes "propose_refund"
action_value ActionName.send_reply = codes "send_reply"
action_value ActionName.request_verification = codes "request_verification"
action_value ActionName.escalate = codes "escalate"
action_value ActionName.finish = codes "finish"
