-- ===== src/Api/Server.antt =====
-- api/routes.py as one service: the requests that it answers, one after another. Every route ends with
-- its transactions committed or rolled back.
use refundagent.Common.{ℕ, String, List, [], ◌∷◌}
use refundagent.Agent.Boundary.{Environment}
use refundagent.Api.Keeps.Routes.{
  Keeps-inbound, Keeps-post_approve, Keeps-post_reject, Keeps-post_confirm, Keeps-pending,
}
use refundagent.Api.Routes.{
  InboundEmail, post_inbound_email, post_operator_approve, post_operator_reject,
  post_verification_confirm, get_operator_pending,
}
use refundagent.Domain.Texts.{RefundId}
use refundagent.Gate.Keeps.Operations.{Serves}
use refundagent.Store.Session.{World}

pub data Request : Type 0 where
  inbound : InboundEmail → Request
  -- refund_id, operator_id
  approve : RefundId → String → Request
  -- refund_id, operator_id, reason
  reject : RefundId → String → String → Request
  confirm : ℕ → Request
  pending : Request

module _ (lower : String → String) (env : Environment) (loop_fuel queue_fuel : ℕ) where
  -- What a request leaves behind, whether it is answered or raises.
  unfoldable pub serve : Request → World → World
  unfolding post_inbound_email post_operator_approve post_operator_reject post_verification_confirm
      get_operator_pending
  serve (Request.inbound mail) w = (post_inbound_email lower env loop_fuel queue_fuel mail w).1
  serve (Request.approve r operator) w =
      (post_operator_approve lower env loop_fuel queue_fuel r operator w).1
  serve (Request.reject r operator reason) w =
      (post_operator_reject lower env loop_fuel queue_fuel r operator reason w).1
  serve (Request.confirm token) w =
      (post_verification_confirm lower env loop_fuel queue_fuel token w).1
  serve Request.pending w = (get_operator_pending w).1

  unfoldable pub serve_all : List Request → World → World
  unfolding serve
  serve_all [] w = w
  serve_all (q ∷ qs) w = serve_all qs (serve q w)

  module _ {P : World → Type 0} (sv : Serves P) where
    kept-serve : (q : Request) (w : World) → P w → P (serve q w)
    unfolding serve
    kept-serve (Request.inbound mail) w h =
        (Keeps-inbound sv lower env loop_fuel queue_fuel mail).at w h
    kept-serve (Request.approve r o) w h =
        (Keeps-post_approve sv.acts lower env loop_fuel queue_fuel r o).at w h
    kept-serve (Request.reject r o s) w h =
        (Keeps-post_reject sv.acts lower env loop_fuel queue_fuel r o s).at w h
    kept-serve (Request.confirm t) w h =
        (Keeps-post_confirm sv.acts lower env loop_fuel queue_fuel t).at w h
    kept-serve Request.pending w h = (Keeps-pending sv.acts).at w h

    -- What every guarded write keeps, all requests keep.
    pub kept-serve_all : (qs : List Request) (w : World) → P w → P (serve_all qs w)
    unfolding serve_all
    kept-serve_all [] w h = h
    kept-serve_all (q ∷ qs) w h = kept-serve_all qs (serve q w) (kept-serve q w h)
