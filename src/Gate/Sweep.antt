-- ===== src/Gate/Sweep.antt =====
-- gate/common.py: the cases that the sweep of expired approvals reopens are cases of the database.
use refundagent.Common.{
  ◌==◌, true, some, List, [], ◌∷◌, find?, filter, contains, All, All-append, All-mono, All-filter,
  All-filter_self, All-sort_by, ◌≡◌, refl, inl, inr, Bool-cases, Option-cases,
}
use refundagent.Domain.Texts.{CustomerId, CaseId, Instant}
use refundagent.Gate.Common.{
  case_ids, due_row, due_refund_rows, note_case, expire_rows, expire_due_refunds_for_customer,
  by_case_and_id, case_open_at,
}
use refundagent.Store.Delivers.{Delivers, Delivers-bind, Delivers-if}
use refundagent.Store.Keeps.Rules.{store_rules}
use refundagent.Store.Keeps.Stable.{Writes}
use refundagent.Store.Names.{name_leb}
use refundagent.Store.Queries.{find_case}
use refundagent.Store.Returns.{Returns, Returns-given, Returns-pure, Returns-bind, Returns-after}
use refundagent.Store.Rows.{CaseRow, RefundRow, Database}
use refundagent.Store.Session.{World, gets}

-- The ids are those of rows.
abbrev pub AllKnown : List CaseRow → List CaseId → Type 0
AllKnown rows ks = All (λ k. contains (case_ids rows) k ≡ true) ks

find-known :
    (rows : List CaseRow) (k : CaseId) (row : CaseRow)
    → find? (λ r. r.id == k) rows ≡ some row
    → contains (case_ids rows) k ≡ true
find-known [] k row h = cc
find-known (x ∷ xs) k row h = elim (Bool-cases (x.id == k)) [
  | inl hit ↦ rw hit refl
  | inr miss ↦ rw miss (find-known xs k row (rw miss at h))
]

due-known :
    (c : CustomerId) (at : Instant) (db : Database) (row : RefundRow)
    → due_row c at db row ≡ true
    → contains (case_ids db.cases) row.case_id ≡ true
unfolding due_row
due-known c at db row h = elim (Option-cases (find_case row.case_id db)) [
  | inl missing ↦ (let bad = rw missing at h in cc)
  | inr (k, there) ↦ find-known db.cases row.case_id k there
]

abbrev OfCases : List CaseRow → List RefundRow → Type 0
OfCases cases rows = All (λ r. contains (case_ids cases) r.case_id ≡ true) rows

due-OfCases :
    (c : CustomerId) (at : Instant) (db : Database) → OfCases db.cases (due_refund_rows c at db)
unfolding due_refund_rows
due-OfCases c at db = All-sort_by _ by_case_and_id (filter (due_row c at db) db.refunds) (
    All-mono (λ r. due_row c at db r ≡ true) _ (due-known c at db) _
      (All-filter_self (due_row c at db) db.refunds))

note-AllKnown :
    (cases : List CaseRow) (k : CaseId) (ks : List CaseId)
    → contains (case_ids cases) k ≡ true
    → AllKnown cases ks
    → AllKnown cases (note_case k ks)
note-AllKnown cases k ks h known = elim (Bool-cases (contains ks k)) [
  | inl noted ↦ rw noted known
  | inr new ↦ rw new (All-append _ ks (k ∷ []) known (h, tt))
]

Delivers-expire_rows :
    (cases : List CaseRow) (c : CustomerId) (rows : List RefundRow) (ks : List CaseId)
    → OfCases cases rows
    → AllKnown cases ks
    → Delivers (λ found _. AllKnown cases found) (expire_rows c rows ks)
unfolding expire_rows
Delivers-expire_rows cases c [] ks h known = record {
  at = λ w a returned. let same : ks ≡ a = cc in rw (← same) known;
}
Delivers-expire_rows cases c (row ∷ rows) ks (h, hs) known = Delivers-bind _ _ (λ changed.
    Delivers-if changed _ _
      (Delivers-bind _ _
        (λ e. Delivers-expire_rows cases c rows _ hs (note-AllKnown cases row.case_id ks h known)))
      (Delivers-expire_rows cases c rows ks hs known))

module _ {P : World → Type 0} (wr : Writes P) (cases : List CaseRow)
    (fixed : (w : World) → P w → w.db.cases ≡ cases) where
  Returns-due :
      (c : CustomerId) (at : Instant)
      → Returns P (λ rows w. P w × OfCases cases rows) (gets (λ w. due_refund_rows c at w.db))
  unfolding gets
  Returns-due c at = record {
    at = λ w rows h returned.
        let same : due_refund_rows c at w.db ≡ rows = cc in
        (h, rw (← same, ← fixed w h) (due-OfCases c at w.db));
  }

  pub Returns-expire :
      (c : CustomerId) → Returns P (λ ks w. AllKnown cases ks) (expire_due_refunds_for_customer c)
  unfolding expire_due_refunds_for_customer
  Returns-expire c = Returns-after _ _ (search store_rules) (λ customer.
      Returns-after _ _ (search store_rules) (λ at. Returns-bind _ _ _ (Returns-due c at) (λ rows.
        Returns-given (OfCases cases rows) _ _ (λ h.
          Returns-bind (λ ks _. AllKnown cases ks) _ _
            (record {
              at = λ w ks p returned. (Delivers-expire_rows cases c rows [] h tt).at w ks returned;
            })
            (λ ks.
              Returns-after _ _ (record { at = λ w known. known })
                (λ events. Returns-pure _ (λ w known.
                  All-filter _ (case_open_at c events at) _ (All-sort_by _ name_leb ks known))))))))
