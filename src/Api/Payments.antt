-- ===== src/Api/Payments.antt =====
-- The payment provider's calls over all requests, against the refund table.
use refundagent.Common.{
  ℕ, String, List, [], ◌∷◌, All, All-append, All-mono, All-both, ◌≡◌, inl, inr,
}
use refundagent.Agent.Boundary.{Environment}
use refundagent.Api.Server.{Request, serve_all, kept-serve_all}
use refundagent.Gate.Keeps.Operations.{Acts, Keeps-approve}
use refundagent.Gate.Keeps.Payments.{Keeps-propose}
use refundagent.Gate.Payments.{Accounted, Accounts}
use refundagent.Gate.Payments.Approval.{Accounts-approve}
use refundagent.Gate.Payments.Proposal.{Accounts-propose}
use refundagent.Store.Keeps.{Keeps}
use refundagent.Store.Keeps.Stable.{with_status, with_refund, Sends, Both, Both-Stable}
use refundagent.Store.Session.{Tx, World, RefundCall, committed, rolled_back}
use refundagent.Gate.Backing.{IsBacked, IsBacked-WritesDatabase}

-- Every call so far is for a refund that is approved or executed, for the amount of the call, in the
-- session and as committed.
abbrev pub IsPaidFor : World → Type 0
IsPaidFor w = All (λ call. Both (IsBacked call) w) w.outside.calls

-- What keeps each call backed keeps all calls of a list backed.
All-IsBacked :
    (v w : World)
    → ((call : RefundCall) → Both (IsBacked call) v → Both (IsBacked call) w)
    → (calls : List RefundCall) → All (λ call. Both (IsBacked call) v) calls
    → All (λ call. Both (IsBacked call) w) calls
All-IsBacked v w k calls h =
    All-mono (λ call. Both (IsBacked call) v) (λ call. Both (IsBacked call) w) k calls h

restored :
    (v w : World)
    → w.outside ≡ v.outside
    → IsPaidFor v
    → IsPaidFor w
    → IsPaidFor (record w { db = v.db })
restored v w same s h =
    All-mono (λ call. Both (IsBacked call) v × Both (IsBacked call) w)
      (λ call. Both (IsBacked call) (record w { db = v.db })) (λ call b. (b.0.0, b.1.1))
      w.outside.calls
      (All-both (λ call. Both (IsBacked call) v) (λ call. Both (IsBacked call) w) w.outside.calls
        (rw same s) h)

IsPaidFor-Sends : Sends IsPaidFor
IsPaidFor-Sends = record {
  writes = record {
    frames = record {
      on_time = λ w h. h;
      on_id = λ w h. h;
      on_commit = λ w h. All-IsBacked w (committed w) (λ call b. (b.0, b.0)) w.outside.calls h;
      on_restore = λ v w same s h. restored v w same s h;
    };
    on_event = λ c k o a ch p at id w catalogue h. h;
    on_number = λ c w h. h;
    on_status = λ from to sel w permitted selects h.
        All-IsBacked w (record w { db = with_status sel to w.db })
          (λ call b.
            ((IsBacked-WritesDatabase call).on_status from to sel w.db permitted selects b.0, b.1))
          w.outside.calls h;
    on_refund = λ row w pending fresh free h.
        All-IsBacked w (record w { db = with_refund row w.db })
          (λ call b.
            ((IsBacked-WritesDatabase call).on_refund row w.db pending fresh free b.0, b.1))
          w.outside.calls h;
  };
  on_sent = λ w o same h. rw same h;
}

Accounted-IsPaidFor :
    (v w : World)
    → ((call : RefundCall) → Both (IsBacked call) v → Both (IsBacked call) w)
    → Accounted v.outside.calls w
    → IsPaidFor v
    → IsPaidFor w
Accounted-IsPaidFor v w k (inl same) h = rw same (All-IsBacked v w k v.outside.calls h)
Accounted-IsPaidFor v w k (inr (call, same, b)) h = rw same (
    All-append (λ x. Both (IsBacked x) w) v.outside.calls (call ∷ [])
      (All-IsBacked v w k v.outside.calls h) (b, tt))

Keeps-accounted :
    {A : Type 0} (m : Tx A)
    → Accounts m
    → ((call : RefundCall) → Keeps (Both (IsBacked call)) m)
    → Keeps IsPaidFor m
Keeps-accounted m am k = record {
  at = λ w h. Accounted-IsPaidFor w (m w).1 (λ call. (k call).at w) (am.at w) h;
}

IsPaidFor-Acts : Acts IsPaidFor
IsPaidFor-Acts = record {
  rolls = record {
    on_rollback = λ w h. All-IsBacked w (rolled_back w) (λ call b. (b.1, b.1)) w.outside.calls h;
  };
  sends = IsPaidFor-Sends;
  proposes = λ row k amount.
      Keeps-accounted _ (Accounts-propose row k amount)
        (λ call. Keeps-propose (Both-Stable (IsBacked-WritesDatabase call)) row k amount);
  approves = λ r operator.
      Keeps-accounted _ (Accounts-approve r operator)
        (λ call. Keeps-approve (Both-Stable (IsBacked-WritesDatabase call)) r operator);
}

module _ (lower : String → String) (env : Environment) (loop_fuel queue_fuel : ℕ) where
  -- If every call of the payment provider so far is for a refund row that has the call's key as
  -- its id and the call's amount, and that is approved or executed, both in the session's database
  -- and as committed, then that still holds after any list of requests, whatever the model answers
  -- and whichever requests raise.
  pub serve_all-IsPaidFor :
      (qs : List Request) (w : World)
      → IsPaidFor w
      → IsPaidFor (serve_all lower env loop_fuel queue_fuel qs w)
  serve_all-IsPaidFor qs w h =
      kept-serve_all lower env loop_fuel queue_fuel
        (record { acts = IsPaidFor-Acts; opens = record { on_case = λ row w h. h } }) qs w h
