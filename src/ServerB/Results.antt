-- ===== src/ServerB/Results.antt =====
-- apps/server-b/src/infrastructure/kafka/coupon-issue-result.consumer.ts: the delivery of a result to
-- the pending store. What `JSON.parse` makes of a message is a parameter.
pub mod Concluded
use coupon_nestjs.Prelude.{ℕ, zero, suc, Bool, String, List, Option, none, some}
use coupon_nestjs.Common.Consuming.{KafkaMessage, Session, Batch, each_batch}
use coupon_nestjs.Common.Statuses.{CouponIssueResultStatus, IssuePendingStatus}
use coupon_nestjs.Common.Payloads.{
  CouponIssueResultPayload, RawIssueResult, assert_issue_result_payload,
}
use coupon_nestjs.Effect.{Result, ok, thrown}
use coupon_nestjs.ServerB.Pending.{PendingIssueStore}

unfoldable pub map_status : CouponIssueResultStatus → IssuePendingStatus
map_status CouponIssueResultStatus.success = IssuePendingStatus.success
map_status CouponIssueResultStatus.sold_out = IssuePendingStatus.sold_out
map_status CouponIssueResultStatus.failed = IssuePendingStatus.failed

abbrev pub unless_ok : {S : Type 0} → (S → S) → Result (Unit {0}) × S → S
unless_ok next (ok _, s) = s
unless_ok next (thrown e, s) = next s

module _ (json_parse : String → Result RawIssueResult) where
  abbrev pub accepted : Result CouponIssueResultPayload → Option CouponIssueResultPayload
  accepted (ok payload) = some payload
  accepted (thrown e) = none

  abbrev pub checked : Result RawIssueResult → Option CouponIssueResultPayload
  checked (thrown e) = none
  checked (ok raw) = accepted (assert_issue_result_payload raw)

  -- A value that is null, no JSON or no payload is skipped.
  unfoldable pub parse : Option String → Option CouponIssueResultPayload
  parse none = none
  parse (some raw) = checked (json_parse raw)

  module _ {S : Type 0} (store : PendingIssueStore S) (max_delivery_attempts : ℕ) where
    -- The attempts that are left.
    unfoldable pub attempt_delivery : CouponIssueResultPayload → ℕ → S → S
    attempt_delivery payload zero s = s
    attempt_delivery payload (suc attempts) s = unless_ok (attempt_delivery payload attempts) (
        store.mark_result payload.user_id payload.coupon_type_id (map_status payload.status)
          payload.coupon_code s)

    abbrev pub deliver_parsed : Option CouponIssueResultPayload → S → S
    deliver_parsed none s = s
    deliver_parsed (some payload) s = attempt_delivery payload max_delivery_attempts s

    unfoldable pub deliver : Option String → S → S
    deliver value s = deliver_parsed (parse value) s

    -- `eachBatch`.
    unfoldable pub consume : Session → ℕ → List KafkaMessage → S → Batch S
    consume session max_records_per_batch messages s =
        each_batch (λ n value. deliver value) session max_records_per_batch 0 messages s
