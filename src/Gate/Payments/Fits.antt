-- ===== src/Gate/Payments/Fits.antt =====
-- gate/refund.py: the refund that a proposal makes is for this proposal, and it is new.
use refundagent.Common.{
  ◌==◌, ◌||◌, Bool, List, false, Option, none, some, any, ◌≡◌, refl, ◌∙◌, ap, sym, inl, inr,
  Bool-cases, arith,
}
use refundagent.Common.Int.{ℤ}
use refundagent.Domain.Decimal.{Decimal, quantize_cents?}
use refundagent.Domain.Texts.{CustomerId, CaseId, OrderId, RefundId, Instant}
use refundagent.Gate.Common.{load_rule_context_for_case}
use refundagent.Gate.Refund.{
  RefundKey, Clearance, Proposal, refund_key, append_refund_proposed,
  append_open_refund_race_denial, insert_refund, settle_proposal, insert_proposal, follow_verdict,
  persist_refund_proposal, deny_race, pending_row,
}
use refundagent.Policy.Evaluate.{Authorised, authorised, blocked}
use refundagent.Policy.Verdicts.{Blocking, RuleContext}
use refundagent.Projection.Case.{project_case_summary}
use refundagent.Projection.Types.{StoredEvent}
use refundagent.Store.Keeps.{Frames, Keeps, keeps_rules}
use refundagent.Store.Keeps.Rules.{store_rules}
use refundagent.Store.Queries.{find_case, load_customer_events, live_on}
use refundagent.Store.Returns.{
  Returns, Returns-given, Returns-pure, Returns-raise, Returns-bind, Returns-after, Returns-if,
  Returns-gets, Returns-require,
}
use refundagent.Store.Rows.{Database, CaseRow, RefundRow}
use refundagent.Store.Session.{Tx, World, now, ◌>>=◌}

-- The case's linked order, as its log says at some time.
abbrev pub IsLinked : CaseId → Database → OrderId → Type 0
IsLinked k db o =
    (row : CaseRow) × (at : Instant) × (find_case k db ≡ some row)
    × ((project_case_summary k row.customer_id (load_customer_events row.customer_id db)
          at).linked_order_id
        ≡ some o)

-- A new refund for a proposal of `amount` in a case of a customer, on this database.
pub record IsForProposal (c : CustomerId) (k : CaseId) (amount : Decimal) (db : Database)
    (key : RefundKey) (cents : ℤ) : Type 0 where
  pub for_customer : key.customer_id ≡ c
  pub for_case : key.case_id ≡ k
  pub for_order : IsLinked k db key.order_id
  pub rounded : quantize_cents? amount ≡ some cents
  pub fresh : any (λ r. r.id == key.refund_id) db.refunds ≡ false

module _ (c : CustomerId) (k : CaseId) (amount : Decimal) (db : Database) where
  abbrev pub At : World → Type 0
  At w = w.db ≡ db

  At-Frames : Frames At
  At-Frames = record {
    on_time = λ w h. h;
    on_id = λ w h. h;
    on_commit = λ w h. h;
    on_restore = λ v w q s h. s;
  }

  -- An approved proposal is for this one.
  abbrev pub IsFit : Proposal → Type 0
  IsFit (Proposal.no_refund b) = Unit
  IsFit (Proposal.waiting r) = Unit
  IsFit (Proposal.auto_approved key cents) = IsForProposal c k amount db key cents

  -- The context of policy is the case's own.
  abbrev IsLoaded : CaseRow × RuleContext → Type 0
  IsLoaded loaded =
      (row : CaseRow) × (at : Instant) × (find_case k db ≡ some row)
      × (loaded.1.case
          ≡ project_case_summary k row.customer_id (load_customer_events row.customer_id db) at)

  context_now :
      (w : World) (row : CaseRow) (found : Option CaseRow) (events : List StoredEvent)
      (at : Instant)
      → found ≡ some row
      → (At w × (find_case k w.db ≡ found)) × (load_customer_events row.customer_id w.db ≡ events)
      → (r : CaseRow) × (t : Instant) × (find_case k db ≡ some r)
        × (project_case_summary k row.customer_id events at
            ≡ project_case_summary k r.customer_id (load_customer_events r.customer_id db) t)
  context_now w row found events at known ((same, here), read) = (
    row,
    at,
    (rw same at here) ∙ known,
    ap (λ es. project_case_summary k row.customer_id es at) (sym (rw same at read)),
  )

  pub Returns-context :
      Returns At (λ loaded w. At w × IsLoaded loaded) (load_rule_context_for_case k)
  unfolding load_rule_context_for_case now
  Returns-context = Returns-gets _ _ (λ found. Returns-require found _ _ (λ row known.
      Returns-after _ _ (search keeps_rules) (λ found_customer.
        Returns-after _ _ (search keeps_rules) (λ customer. Returns-gets _ _ (λ events.
          Returns-after _ _ (record { at = λ w h. h })
            (λ at. Returns-gets _ _ (λ seen.
              Returns-pure _ (λ w h. (h.0.0.0, context_now w row found events at known h.0)))))))))

  first_of_or : (a b : Bool) → (a || b) ≡ false → a ≡ false
  first_of_or a b h = ground arith

  Returns-insert :
      (row : RefundRow)
      → Returns At (λ _ _. any (λ r. r.id == row.id) db.refunds ≡ false) (insert_refund row)
  unfolding insert_refund
  Returns-insert row = record {
    at = λ w a h returned.
        rw (← h)
          (elim (Bool-cases
            (any (λ r. r.id == row.id) w.db.refunds || any (live_on row.order_id) w.db.refunds)) [
              | inl taken ↦ (let bad = rw taken at returned in cc)
              | inr free ↦ first_of_or _ _ free
            ]);
  }

  Keeps-nothing : {A : Type 0} (m : Tx A) → Keeps (λ _. Unit {0}) m
  Keeps-nothing m = record { at = λ w h. h }

  Returns-nothing : {A : Type 0} (m : Tx A) → Returns At (λ _ _. Unit {0}) m
  Returns-nothing m = record { at = λ w a h returned. tt }

  Returns-settle :
      (key : RefundKey) (cents : ℤ) (how : Clearance)
      → IsForProposal c k amount db key cents
      → Returns (λ _. Unit {0}) (λ p _. IsFit p) (settle_proposal key cents how)
  unfolding settle_proposal
  Returns-settle key cents Clearance.by_capability fit =
      Returns-after _ _ (Keeps-nothing _) (λ changed.
        Returns-after _ _ (Keeps-nothing _)
          (λ _. Returns-after _ _ (Keeps-nothing _) (λ e. Returns-pure _ (λ w u. fit))))
  Returns-settle key cents (Clearance.by_operator r) fit =
      Returns-after _ _ (Keeps-nothing _) (λ e. Returns-pure _ (λ w u. tt))

  Returns-rest :
      (o : OrderId) (r : RefundId) (cents : ℤ) (how : Clearance)
      → IsLinked k db o
      → quantize_cents? amount ≡ some cents
      → Returns
          (λ _. any (λ x. x.id == r) db.refunds ≡ false)
          (λ p _. IsFit p)
          (append_refund_proposed (refund_key c k o r) cents >>= λ _.
            settle_proposal (refund_key c k o r) cents how)
  Returns-rest o r cents how linked rounded = record {
    at = λ w p new returned.
        (Returns-after _ _ (Keeps-nothing _) (λ e.
            Returns-settle (refund_key c k o r) cents how (record {
              for_customer = refl;
              for_case = refl;
              for_order = linked;
              rounded = rounded;
              fresh = new;
            }))).at
          w p tt returned;
  }

  Returns-insert_proposal :
      (o : OrderId) (how : Clearance)
      → IsLinked k db o
      → Returns At (λ p _. IsFit p) (insert_proposal c k o amount how)
  unfolding insert_proposal
  Returns-insert_proposal o how linked = Returns-require _ _ _ (λ cents rounded.
      Returns-after _ _ (search (keeps_rules, At-Frames)) (λ r.
        Returns-after _ _ (search (keeps_rules, At-Frames)) (λ at.
          Returns-after _ _ (search store_rules) (λ owner.
            Returns-after _ _ (search keeps_rules) (λ _.
              Returns-bind _ _ _ (Returns-insert (pending_row (refund_key c k o r) cents at))
                (λ _. Returns-rest o r cents how linked rounded))))))

  Returns-follow :
      (o : Option OrderId) (v : Authorised)
      → ((order : OrderId) → o ≡ some order → IsLinked k db order)
      → Returns At (λ p _. IsFit p) (follow_verdict c k amount o v)
  unfolding follow_verdict
  Returns-follow o (blocked (Blocking.deny d)) linked =
      Returns-bind _ _ _ (Returns-nothing _) (λ e. Returns-pure _ (λ w u. tt))
  Returns-follow o (blocked (Blocking.force_escalate f)) linked = Returns-pure _ (λ w u. tt)
  Returns-follow o (blocked (Blocking.require_approval r)) linked =
      Returns-require _ _ _ (λ order known.
        Returns-insert_proposal order (Clearance.by_operator r) (linked order known))
  Returns-follow o (authorised auth) linked = Returns-require _ _ _ (λ order known.
      Returns-after _ _ (search keeps_rules)
        (λ spent. Returns-insert_proposal order Clearance.by_capability (linked order known)))

  pub Returns-persist : Returns At (λ p _. IsFit p) (persist_refund_proposal c k amount)
  unfolding persist_refund_proposal
  Returns-persist = Returns-after _ _ (search store_rules) (λ _.
      Returns-bind _ _ _ Returns-context (λ loaded. Returns-given _ _ _ (λ own.
        Returns-after _ _ (search keeps_rules) (λ verdict.
          Returns-follow loaded.1.case.linked_order_id verdict (λ order known.
            let (row, at, found, same) = own in
            (row, at, found, ap (λ s. s.linked_order_id) (sym same) ∙ known))))))

  pub Returns-race : (o : Option OrderId) → Returns At (λ p _. IsFit p) (deny_race c k amount o)
  unfolding deny_race append_open_refund_race_denial
  Returns-race none = Returns-raise _
  Returns-race (some o) = Returns-after _ _ (search keeps_rules) (λ rival.
      Returns-if _ _ _ (Returns-bind _ _ _ (Returns-nothing _) (λ e. Returns-pure _ (λ w u. tt)))
        (Returns-raise _))
