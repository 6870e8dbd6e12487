-- ===== src/Agent/Boundary/Accepts.antt =====
-- agent/parsing.py: which model outputs are accepted as an action.
use refundagent.Common.{
  String, true, false, Option, none, some, [], ◌∷◌, ◌≡◌, ◌≢◌, ◌↔◌, refl, ap, subst, arith,
}
use refundagent.Actions.{Action}
use refundagent.Agent.Boundary.{
  Environment, Decoded, Parsed, ParseOutcome, parse, parse_stripped, check_decoded, check_decimal,
  strip, decimal_error, unless_error,
}
use refundagent.Common.Chars.{Chars, codes}
use refundagent.Domain.Decimal.{Decimal, is_finite, over_scaled}

-- A proposed amount is finite and has at most two decimals.
abbrev pub HasMoney : Action → Type 0
HasMoney (Action.propose_refund amount) = (is_finite amount ≡ true) × (over_scaled amount ≡ false)
HasMoney _ = Unit

-- An output is accepted as this action.
abbrev pub Accepted : Parsed → Action → Type 0
Accepted p a = p ≡ Parsed.parsed (ParseOutcome.parse_success a)

unless_error-success :
    (b a : Action) (e : Option String)
    → unless_error b e ≡ ParseOutcome.parse_success a
    → (b ≡ a) × (e ≡ none)
unless_error-success b a none h = (cc, refl)
unless_error-success b a (some e) h = cc

no_error :
    (amount : Decimal)
    → decimal_error amount ≡ none
    → (is_finite amount ≡ true) × (over_scaled amount ≡ false)
unfolding decimal_error
no_error amount h = (ground arith, ground arith)

money_accepted : (a : Action) → HasMoney a → check_decimal a ≡ ParseOutcome.parse_success a
unfolding decimal_error
money_accepted (Action.propose_refund amount) (hf, ho) = rw (hf, ho) refl
money_accepted Action.get_orders h = refl
money_accepted (Action.link_order o) h = refl
money_accepted (Action.send_reply subject body) h = refl
money_accepted Action.request_verification h = refl
money_accepted (Action.escalate reason) h = refl
money_accepted (Action.finish summary) h = refl

passes_unchanged :
    (b a : Action)
    → HasMoney b
    → ParseOutcome.parse_success b ≡ ParseOutcome.parse_success a
    → (b ≡ a) × HasMoney a
passes_unchanged b a money h = let same : b ≡ a = cc in (same, subst HasMoney same money)

check_decimal-success :
    (b a : Action) → check_decimal b ≡ ParseOutcome.parse_success a → (b ≡ a) × HasMoney a
check_decimal-success (Action.propose_refund amount) a h =
    let (same, none_found) =
      unless_error-success (Action.propose_refund amount) a (decimal_error amount) h in
    (same, subst HasMoney same (no_error amount none_found))
check_decimal-success Action.get_orders a h = passes_unchanged _ a tt h
check_decimal-success (Action.link_order o) a h = passes_unchanged _ a tt h
check_decimal-success (Action.send_reply subject body) a h = passes_unchanged _ a tt h
check_decimal-success Action.request_verification a h = passes_unchanged _ a tt h
check_decimal-success (Action.escalate reason) a h = passes_unchanged _ a tt h
check_decimal-success (Action.finish summary) a h = passes_unchanged _ a tt h

decoded_iff :
    (d : Decoded) (a : Action)
    → Accepted (check_decoded d) a ↔ ((d ≡ Decoded.decoded a) × HasMoney a)
decoded_iff (Decoded.malformed m) a = (λ h. cc, λ (h, money). cc)
decoded_iff (Decoded.undecodable e) a = (λ h. cc, λ (h, money). cc)
decoded_iff Decoded.no_object a = (λ h. cc, λ (h, money). cc)
decoded_iff (Decoded.invalid l m) a = (λ h. cc, λ (h, money). cc)
decoded_iff (Decoded.decoded b) a = (
  λ h.
      let outcome : check_decimal b ≡ ParseOutcome.parse_success a = cc in
      let (same, money) = check_decimal-success b a outcome in (ap Decoded.decoded same, money),
  λ (h, money). let same : b ≡ a = cc in rw same (ap Parsed.parsed (money_accepted a money)),
)

stripped_iff :
    (env : Environment) (s : Chars) (a : Action)
    → Accepted (parse_stripped env s) a
      ↔ ((s ≢ []) × (env.decode s ≡ Decoded.decoded a) × HasMoney a)
stripped_iff env [] a = (λ h. cc, λ (h, _, _). absurd (h refl))
stripped_iff env (c ∷ s) a =
    let (to, from) = decoded_iff (env.decode (c ∷ s)) a in
    (λ h. let (d, money) = to h in (λ e. cc, d, money), λ (h, d, money). from (d, money))

-- A model output is accepted as an action exactly when something is left of it without the
-- surrounding whitespace, this is decoded and validated as the action, and, if the action proposes
-- a refund, its amount is finite and has at most two decimals.
pub parse_success_iff :
    (env : Environment) (raw : String) (a : Action)
    → Accepted (parse env raw) a ↔ (
        (strip (codes raw) ≢ [])
        × (env.decode (strip (codes raw)) ≡ Decoded.decoded a)
        × HasMoney a)
unfolding parse
parse_success_iff env raw a = stripped_iff env (strip (codes raw)) a
