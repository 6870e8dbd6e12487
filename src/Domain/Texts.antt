-- ===== src/Domain/Texts.antt =====
-- Identifiers, instants and texts. An identifier is a fixed prefix and a decimal number, such as
-- `case_7`, and the model keeps the number: the program compares identifiers and never reads them.
-- A text with values in it (an f-string) is kept as the list of its pieces.
use refundagent.Common.{ℕ, String, List, [], ◌∷◌}
use refundagent.Common.Int.{ℤ}
use refundagent.Domain.Decimal.{Decimal}

abbrev pub CustomerId : Type 0
CustomerId = ℕ

abbrev pub CaseId : Type 0
CaseId = ℕ

abbrev pub OrderId : Type 0
OrderId = ℕ

abbrev pub RefundId : Type 0
RefundId = ℕ

-- Seconds since an epoch, in UTC.
abbrev pub Instant : Type 0
Instant = ℕ

pub data Piece : Type 0 where
  lit : String → Piece
  id : ℕ → Piece
  amount : Decimal → Piece
  cents : ℤ → Piece

abbrev pub Text : Type 0
Text = List Piece

abbrev pub text : String → Text
text s = Piece.lit s ∷ []
