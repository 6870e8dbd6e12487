-- ===== src/Projection/Case/Closed.antt =====
-- When a case is closed, and that a longer log never reopens it.
use mathlib.Core.List.{foldl}
use refundagent.Common.{
  Bool, true, false, ◌&&◌, ◌||◌, List, [], ◌∷◌, ◌++◌, ◌≡◌, ◌↔◌, refl, ◌∙◌, ap, arith, any, filter,
  sort_by, insert_by,
}
use refundagent.Domain.Enums.{CaseStatus}
use refundagent.Domain.Payload.{Payload}
use refundagent.Domain.Texts.{CustomerId, CaseId, Instant}
use refundagent.Projection.Case.{
  CaseFoldState, initial, in_case_fold, case_fold_events, apply_payload, apply_case_event,
  resolve_case_status, fold_case, project_case_summary,
}
use refundagent.Projection.Types.{StoredEvent, by_seq}

abbrev pub closes : Payload → Bool
closes (Payload.case_closed outcome summary) = true
closes _ = false

-- Whether a log has an event that closes the case.
abbrev pub closed_in : CaseId → CustomerId → List StoredEvent → Bool
closed_in k c events = any (λ e. in_case_fold c k e && closes e.payload) events

any-insert_by :
    (p : StoredEvent → Bool) (le : StoredEvent → StoredEvent → Bool) (e : StoredEvent)
    (es : List StoredEvent)
    → any p (insert_by le e es) ≡ (p e || any p es)
any-insert_by p le e [] = refl
any-insert_by p le e (x ∷ xs) = ground (arith, any-insert_by p le e xs)

pub any-sort_by :
    (p : StoredEvent → Bool) (le : StoredEvent → StoredEvent → Bool) (es : List StoredEvent)
    → any p (sort_by le es) ≡ any p es
any-sort_by p le [] = refl
any-sort_by p le (e ∷ es) =
    any-insert_by p le e (sort_by le es) ∙ ap (λ b. p e || b) (any-sort_by p le es)

pub any-filter :
    (p q : StoredEvent → Bool) (es : List StoredEvent)
    → any p (filter q es) ≡ any (λ e. q e && p e) es
any-filter p q [] = refl
any-filter p q (e ∷ es) = ground (arith, any-filter p q es)

any-append :
    (p : StoredEvent → Bool) (xs ys : List StoredEvent) → any p (xs ++ ys) ≡ (any p xs || any p ys)
any-append p [] ys = refl
any-append p (x ∷ xs) ys = ground (arith, any-append p xs ys)

has_case_closed-apply :
    (s : CaseFoldState) (e : StoredEvent)
    → (apply_case_event s e).has_case_closed ≡ (s.has_case_closed || closes e.payload)
unfolding apply_payload
has_case_closed-apply s e = ground arith

has_case_closed-foldl :
    (s : CaseFoldState) (es : List StoredEvent)
    → (foldl apply_case_event s es).has_case_closed
      ≡ (s.has_case_closed || any (λ e. closes e.payload) es)
has_case_closed-foldl s [] = ground arith
has_case_closed-foldl s (e ∷ es) =
    ground (arith, has_case_closed-foldl (apply_case_event s e) es, has_case_closed-apply s e)

has_case_closed-fold_case :
    (k : CaseId) (c : CustomerId) (events : List StoredEvent)
    → (fold_case k c events).has_case_closed ≡ closed_in k c events
unfolding fold_case case_fold_events
has_case_closed-fold_case k c events =
    has_case_closed-foldl initial (case_fold_events k c events)
    ∙ any-sort_by (λ e. closes e.payload) by_seq (filter (in_case_fold c k) events)
    ∙ any-filter (λ e. closes e.payload) (in_case_fold c k) events

status-closed :
    (s : CaseFoldState) (now : Instant)
    → (resolve_case_status s now ≡ CaseStatus.closed) ↔ (s.has_case_closed ≡ true)
unfolding resolve_case_status
status-closed s now = (λ h. ground arith, λ h. ground arith)

-- A case is projected as closed exactly when the log has an event of the case that closes it, at
-- any time and in whichever order the log lists its events.
pub project-closed_iff :
    (k : CaseId) (c : CustomerId) (events : List StoredEvent) (now : Instant)
    → ((project_case_summary k c events now).status ≡ CaseStatus.closed)
      ↔ (closed_in k c events ≡ true)
unfolding project_case_summary
project-closed_iff k c events now =
    rw (← has_case_closed-fold_case k c events) (status-closed (fold_case k c events) now)

pub closed_in-append :
    (k : CaseId) (c : CustomerId) (events new : List StoredEvent)
    → closed_in k c events ≡ true
    → closed_in k c (events ++ new) ≡ true
closed_in-append k c events new h =
    ground (arith, h, any-append (λ e. in_case_fold c k e && closes e.payload) events new)
