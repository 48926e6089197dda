-- ===== src/ServerB/Accept.antt =====
-- apps/server-b/src/application/coupon-issue-accept.service.ts.
pub mod Outcomes
use coupon_nestjs.Prelude.{ℕ, ℤ, String, Bool, true, false}
use coupon_nestjs.Common.Broker.{Broker}
use coupon_nestjs.Common.Payloads.{
  CouponIssueRequestPayload, IssueAcceptanceResult, acceptance_accepted, acceptance_duplicate,
}
use coupon_nestjs.Effect.{Result, ok, thrown, Async, pure, ◌>>=◌, ◌>>◌, try_catch}
use coupon_nestjs.ServerB.Pending.{PendingIssueStore}
use coupon_nestjs.ServerB.Publisher.{RequestLog, publish_with_timeout}

-- The pending store and the topic `coupon-issue-request`.
pub record Desk (S : Type 0) : Type 0 where
  pub pendings : S
  pub log : RequestLog

module _ {S A : Type 0} where
  abbrev pub with_pendings : Desk S → Result A × S → Result A × Desk S
  with_pendings d (r, pendings) = (r, record d { pendings = pendings })

  abbrev with_log : Desk S → Result A × RequestLog → Result A × Desk S
  with_log d (r, log) = (r, record d { log = log })

  abbrev pub on_pendings : Async S A → Async (Desk S) A
  on_pendings m d = with_pendings d (m d.pendings)

  abbrev pub on_log : Async RequestLog A → Async (Desk S) A
  on_log m d = with_log d (m d.log)

-- `randomUUID()`, `new Date()` and its text are given.
module _ {S : Type 0} (store : PendingIssueStore S) (broker : Broker CouponIssueRequestPayload)
    (request_id : String) (now : ℕ) (now_text : String) where
  abbrev pub payload_of : ℤ → ℤ → ℤ → CouponIssueRequestPayload
  payload_of user_id event_id coupon_type_id = record {
    request_id = request_id;
    user_id = user_id;
    event_id = event_id;
    coupon_type_id = coupon_type_id;
    requested_at = now_text;
  }

  -- A failed publish is logged and left to the scheduler.
  abbrev pub accepted_after_publish : ℤ → ℤ → ℤ → Async (Desk S) IssueAcceptanceResult
  accepted_after_publish user_id event_id coupon_type_id =
      try_catch (on_log (publish_with_timeout broker (payload_of user_id event_id coupon_type_id)))
        (λ _. pure tt)
      >> pure (acceptance_accepted request_id)

  abbrev pub after_write : ℤ → ℤ → ℤ → Bool → Async (Desk S) IssueAcceptanceResult
  after_write user_id event_id coupon_type_id false = pure (acceptance_duplicate request_id)
  after_write user_id event_id coupon_type_id true =
      accepted_after_publish user_id event_id coupon_type_id

  unfoldable pub accept : ℤ → ℤ → ℤ → Async (Desk S) IssueAcceptanceResult
  accept user_id event_id coupon_type_id =
      on_pendings (store.save_pending_if_absent request_id user_id event_id coupon_type_id now)
      >>= after_write user_id event_id coupon_type_id
