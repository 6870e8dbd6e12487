-- ===== src/Api/Refunds.antt =====
-- The refund rows over all requests: their intent never changes, their status follows the lifecycle
-- of repositories/refund_transitions.py, and an order has one live refund at most.
use refundagent.Common.{
  ℕ, String, Bool, true, false, List, [], ◌∷◌, ◌++◌, any, ◌≡◌, refl, inl, inr, arith, Bool-cases,
  ==-refl, eq_of_==,
}
use refundagent.Agent.Boundary.{Environment}
use refundagent.Api.Server.{Request, serve_all, kept-serve_all}
use refundagent.Domain.Enums.{RefundStatus}
use refundagent.Domain.Texts.{OrderId}
use refundagent.Gate.Keeps.Operations.{Written-Serves}
use refundagent.Store.Keeps.Stable.{WritesDatabase, Both}
use refundagent.Store.Queries.{is_live, live_on}
use refundagent.Store.Rows.{RefundRow}
use refundagent.Store.Session.{World}
use refundagent.Store.Transitions.{
  transition_permitted, allowed_refund_status_targets, update_rows, moved,
}

-- The statuses that permitted transitions lead to.
pub data Reaches (from : RefundStatus) : RefundStatus → Type 0 where
  stays : Reaches from from
  moves :
      {via to : RefundStatus}
      → Reaches from via
      → transition_permitted via to ≡ true
      → Reaches from to

-- The same intent, at a later point of the lifecycle.
pub record Evolves (old new : RefundRow) : Type 0 where
  pub id : new.id ≡ old.id
  pub customer_id : new.customer_id ≡ old.customer_id
  pub order_id : new.order_id ≡ old.order_id
  pub case_id : new.case_id ≡ old.case_id
  pub amount : new.amount ≡ old.amount
  pub created_at : new.created_at ≡ old.created_at
  pub status : Reaches old.status new.status

-- Every old row has its successor, at the same place; new rows come after them.
abbrev pub Succeed : List RefundRow → List RefundRow → Type 0
Succeed [] news = Unit
Succeed (old ∷ olds) [] = ⊥
Succeed (old ∷ olds) (new ∷ news) = Evolves old new × Succeed olds news

Evolves-refl : (row : RefundRow) → Evolves row row
Evolves-refl row = record {
  id = refl;
  customer_id = refl;
  order_id = refl;
  case_id = refl;
  amount = refl;
  created_at = refl;
  status = Reaches.stays;
}

Succeed-refl : (rows : List RefundRow) → Succeed rows rows
Succeed-refl [] = tt
Succeed-refl (row ∷ rows) = (Evolves-refl row, Succeed-refl rows)

Succeed-append :
    (olds news : List RefundRow) (row : RefundRow)
    → Succeed olds news
    → Succeed olds (news ++ row ∷ [])
Succeed-append [] news row h = tt
Succeed-append (old ∷ olds) [] row h = absurd h
Succeed-append (old ∷ olds) (new ∷ news) row (e, h) = (e, Succeed-append olds news row h)

module _ (from to : RefundStatus) (sel : RefundRow → Bool)
    (permitted : transition_permitted from to ≡ true)
    (selects : (row : RefundRow) → sel row ≡ true → row.status ≡ from) where
  Evolves-moved :
      (old new : RefundRow) → new.status ≡ from → Evolves old new → Evolves old (moved to new)
  Evolves-moved old new same e = record {
    id = e.id;
    customer_id = e.customer_id;
    order_id = e.order_id;
    case_id = e.case_id;
    amount = e.amount;
    created_at = e.created_at;
    status = Reaches.moves e.status (rw same permitted);
  }

  Succeed-update :
      (olds news : List RefundRow) → Succeed olds news → Succeed olds (update_rows sel to news)
  unfolding update_rows
  Succeed-update [] news h = tt
  Succeed-update (old ∷ olds) [] h = absurd h
  Succeed-update (old ∷ olds) (new ∷ news) (e, h) = elim (Bool-cases (sel new)) [
    | inl hit ↦ rw hit (Evolves-moved old new (selects new hit) e, Succeed-update olds news h)
    | inr miss ↦ rw miss (e, Succeed-update olds news h)
  ]

Succeed-WritesDatabase : (olds : List RefundRow) → WritesDatabase (λ db. Succeed olds db.refunds)
Succeed-WritesDatabase olds = record {
  on_event = λ c k o a ch p at id db catalogue h. h;
  on_number = λ c db h. h;
  on_status = λ from to sel db permitted selects h.
      Succeed-update from to sel permitted selects olds db.refunds h;
  on_refund = λ row db pending fresh free h. Succeed-append olds db.refunds row h;
  on_case = λ row db h. h;
}

-- No row behind a live row has a live refund of its order.
abbrev pub HasOneLive : List RefundRow → Type 0
HasOneLive [] = Unit
HasOneLive (row ∷ rows) =
    (is_live row.status ≡ true → any (live_on row.order_id) rows ≡ false) × HasOneLive rows

-- A transition makes no dead refund live.
live_back :
    (from to : RefundStatus)
    → transition_permitted from to ≡ true
    → is_live to ≡ true
    → is_live from ≡ true
unfolding transition_permitted allowed_refund_status_targets
live_back from to h k = ground arith

none_live-append :
    (o : OrderId) (rows : List RefundRow) (row : RefundRow)
    → any (live_on o) rows ≡ false
    → live_on o row ≡ false
    → any (live_on o) (rows ++ row ∷ []) ≡ false
none_live-append o [] row h k = ground arith
none_live-append o (x ∷ xs) row h k = ground (arith, none_live-append o xs row)

other_order :
    (x row : RefundRow) (xs : List RefundRow)
    → is_live x.status ≡ true
    → any (live_on row.order_id) (x ∷ xs) ≡ false
    → live_on x.order_id row ≡ false
other_order x row xs h k = ground (arith, ==-refl x.order_id, eq_of_== row.order_id x.order_id)

HasOneLive-append :
    (rows : List RefundRow) (row : RefundRow)
    → any (live_on row.order_id) rows ≡ false
    → HasOneLive rows
    → HasOneLive (rows ++ row ∷ [])
HasOneLive-append [] row free h = (λ live. refl, tt)
HasOneLive-append (x ∷ xs) row free (one, h) = (
  λ live. none_live-append x.order_id xs row (one live) (other_order x row xs live free),
  HasOneLive-append xs row (ground (arith, free)) h,
)

module _ (from to : RefundStatus) (sel : RefundRow → Bool)
    (permitted : transition_permitted from to ≡ true)
    (selects : (row : RefundRow) → sel row ≡ true → row.status ≡ from) where
  was_live : (row : RefundRow) → row.status ≡ from → is_live to ≡ true → is_live row.status ≡ true
  was_live row same live = rw same (live_back from to permitted live)

  not_live-moved :
      (o : OrderId) (row : RefundRow)
      → row.status ≡ from
      → live_on o row ≡ false
      → live_on o (moved to row) ≡ false
  not_live-moved o row same h = ground (arith, was_live row same)

  none_live-update :
      (o : OrderId) (rows : List RefundRow)
      → any (live_on o) rows ≡ false
      → any (live_on o) (update_rows sel to rows) ≡ false
  unfolding update_rows
  none_live-update o [] h = refl
  none_live-update o (row ∷ rows) h = elim (Bool-cases (sel row)) [
    | inl hit ↦
        rw hit (ground (arith, none_live-update o rows, not_live-moved o row (selects row hit)))
    | inr miss ↦ rw miss (ground (arith, none_live-update o rows))
  ]

  HasOneLive-update :
      (rows : List RefundRow) → HasOneLive rows → HasOneLive (update_rows sel to rows)
  unfolding update_rows
  HasOneLive-update [] h = tt
  HasOneLive-update (row ∷ rows) (one, h) = elim (Bool-cases (sel row)) [
    | inl hit ↦ rw hit (
      λ live. none_live-update row.order_id rows (one (was_live row (selects row hit) live)),
      HasOneLive-update rows h,
    )
    | inr miss ↦
        rw miss (λ live. none_live-update row.order_id rows (one live), HasOneLive-update rows h)
  ]

HasOneLive-WritesDatabase : WritesDatabase (λ db. HasOneLive db.refunds)
HasOneLive-WritesDatabase = record {
  on_event = λ c k o a ch p at id db catalogue h. h;
  on_number = λ c db h. h;
  on_status = λ from to sel db permitted selects h.
      HasOneLive-update from to sel permitted selects db.refunds h;
  on_refund = λ row db pending fresh free h. HasOneLive-append db.refunds row free h;
  on_case = λ row db h. h;
}

module _ (lower : String → String) (env : Environment) (loop_fuel queue_fuel : ℕ) where
  -- From a state whose session sees the committed refund rows, any list of requests leaves each of
  -- these rows at its place, with the same id, customer, order, case, amount and creation time,
  -- and with a status that permitted transitions lead to from the old one; this holds in the
  -- session's database and as committed.
  pub serve_all-Succeed :
      (qs : List Request) (w : World)
      → w.db.refunds ≡ w.durable.refunds
      → Both
          (λ db. Succeed w.durable.refunds db.refunds)
          (serve_all lower env loop_fuel queue_fuel qs w)
  serve_all-Succeed qs w h =
      kept-serve_all lower env loop_fuel queue_fuel
        (Written-Serves (Succeed-WritesDatabase w.durable.refunds)) qs w
        (rw h (Succeed-refl _), Succeed-refl _)

  -- If no order has two pending or approved refunds, in the session's database and as committed,
  -- then no order has two after any list of requests.
  pub serve_all-HasOneLive :
      (qs : List Request) (w : World)
      → Both (λ db. HasOneLive db.refunds) w
      → Both (λ db. HasOneLive db.refunds) (serve_all lower env loop_fuel queue_fuel qs w)
  serve_all-HasOneLive qs w h =
      kept-serve_all lower env loop_fuel queue_fuel (Written-Serves HasOneLive-WritesDatabase) qs w
        h
