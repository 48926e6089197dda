-- ===== src/ServerB/Controller.antt =====
-- apps/server-b/src/api/coupon-issue.controller.ts and issue-response.view.ts: the entrance of server-b,
-- which server-a calls. The body has passed the validation.
use coupon_nestjs.Prelude.{ℕ, ℤ, String, Option}
use coupon_nestjs.Common.Broker.{Broker}
use coupon_nestjs.Common.Statuses.{IssueAcceptanceStatus}
use coupon_nestjs.Common.Payloads.{CouponIssueRequestPayload, IssueAcceptanceResult}
use coupon_nestjs.Common.Requests.{user_id_of}
use coupon_nestjs.Effect.{Async, pure, lift, ◌>>=◌}
use coupon_nestjs.ServerB.Pending.{PendingIssueStore}
use coupon_nestjs.ServerB.Accept.{Desk, accept}

-- A field that is null does not go out.
pub record IssueResponseView : Type 0 where
  pub request_id : Option String
  pub status : IssueAcceptanceStatus
  pub message : Option String

abbrev pub to_issue_response : IssueAcceptanceResult → IssueResponseView
to_issue_response result = record {
  request_id = result.request_id;
  status = result.status;
  message = result.message;
}

module _ {S : Type 0} (store : PendingIssueStore S) (broker : Broker CouponIssueRequestPayload)
    (rounded : ℤ → ℤ) (request_id : String) (now : ℕ) (now_text : String) where
  -- `issue`, with the header and the two fields of the body.
  unfoldable pub issue : Option String → ℤ → ℤ → Async (Desk S) IssueResponseView
  issue header event_id coupon_type_id = lift (user_id_of rounded header) >>= λ user_id.
      accept store broker request_id now now_text user_id event_id coupon_type_id >>= λ result.
      pure (to_issue_response result)
