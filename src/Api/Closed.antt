-- ===== src/Api/Closed.antt =====
-- A closed case over all requests.
use refundagent.Common.{
  ℕ, String, true, List, [], ◌∷◌, ◌&&◌, ◌==◌, ◌≡◌, refl, ◌∙◌, any, filter, arith, sym,
}
use refundagent.Agent.Boundary.{Environment}
use refundagent.Api.Log.{Extends, serve_all-Extends}
use refundagent.Api.Server.{Request, serve_all}
use refundagent.Domain.Enums.{CaseStatus}
use refundagent.Domain.Texts.{CustomerId, CaseId, Instant}
use refundagent.Projection.Case.{in_case_fold, project_case_summary}
use refundagent.Projection.Case.Closed.{
  closes, closed_in, any-sort_by, any-filter, project-closed_iff, closed_in-append,
}
use refundagent.Projection.Types.{StoredEvent, by_seq}
use refundagent.Store.Queries.{load_customer_events}
use refundagent.Store.Rows.{Database}
use refundagent.Store.Session.{World}

own_events :
    (k : CaseId) (c : CustomerId) (events : List StoredEvent)
    → any (λ e. (e.customer_id == c) && (in_case_fold c k e && closes e.payload)) events
      ≡ closed_in k c events
unfolding in_case_fold
own_events k c [] = refl
own_events k c (e ∷ es) = ground (arith, own_events k c es)

-- The customer's own events close what the whole log closes.
closed_in-load :
    (k : CaseId) (c : CustomerId) (db : Database)
    → closed_in k c (load_customer_events c db) ≡ closed_in k c db.events
unfolding load_customer_events
closed_in-load k c db =
    any-sort_by (λ e. in_case_fold c k e && closes e.payload) by_seq
      (filter (λ e. e.customer_id == c) db.events)
    ∙ any-filter (λ e. in_case_fold c k e && closes e.payload) (λ e. e.customer_id == c) db.events
    ∙ own_events k c db.events

extended :
    (k : CaseId) (c : CustomerId) (old new : Database)
    → Extends old.events new
    → closed_in k c (load_customer_events c old) ≡ true
    → closed_in k c (load_customer_events c new) ≡ true
extended k c old new (more, same) h =
    rw (closed_in-load k c new, same)
      (closed_in-append k c old.events more (sym (closed_in-load k c old) ∙ h))

module _ (lower : String → String) (env : Environment) (loop_fuel queue_fuel : ℕ) where
  -- From a state whose session sees the committed log, a case that is projected as closed at some
  -- time is projected as closed at every time after any list of requests, from the session's
  -- database and from the committed one.
  pub serve_all-closed :
      (qs : List Request) (w : World) (k : CaseId) (c : CustomerId) (now later : Instant)
      → w.db.events ≡ w.durable.events
      → (project_case_summary k c (load_customer_events c w.durable) now).status ≡ CaseStatus.closed
      → ((project_case_summary k c
            (load_customer_events c (serve_all lower env loop_fuel queue_fuel qs w).db)
            later).status
          ≡ CaseStatus.closed)
        × ((project_case_summary k c
              (load_customer_events c (serve_all lower env loop_fuel queue_fuel qs w).durable)
              later).status
            ≡ CaseStatus.closed)
  serve_all-closed qs w k c now later same h =
      let closed = (project-closed_iff k c (load_customer_events c w.durable) now).0 h in
      let grown = serve_all-Extends lower env loop_fuel queue_fuel qs w same in
      (
        (project-closed_iff k c _ later).1 (extended k c w.durable _ grown.0 closed),
        (project-closed_iff k c _ later).1 (extended k c w.durable _ grown.1 closed),
      )
