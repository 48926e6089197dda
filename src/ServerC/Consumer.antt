-- ===== src/ServerC/Consumer.antt =====
-- apps/server-c/src/infrastructure/kafka/coupon-issue-request.consumer.ts: a batch of messages, each
-- delivered by a bounded number of attempts. What `JSON.parse` makes of a message is a parameter.
pub mod Delivery
use coupon_nestjs.Prelude.{
  ℕ, zero, suc, String, Bool, true, false, Option, none, some, List, [], ◌∷◌, if◌then◌else◌,
}
use coupon_nestjs.Common.Payloads.{
  CouponIssueRequestPayload, RawIssueRequest, CheckedRequest, typed, mistyped,
  assert_issue_request_payload,
}
use coupon_nestjs.Common.Consuming.{KafkaMessage, Session, Batch, each_batch}
use coupon_nestjs.Common.Cache.{Redis}
use coupon_nestjs.Effect.{Result, ok, thrown}
use coupon_nestjs.ServerC.Engine.{Engine}
use coupon_nestjs.ServerC.World.{World}
use coupon_nestjs.ServerC.Issue.{Moment, process}

-- `try { …; return } catch { … }`, and what comes next.
abbrev pub unless_ok : (World → World) → Result (Unit {0}) × World → World
unless_ok next (ok _, w) = w
unless_ok next (thrown e, w) = next w

module _ (json_parse : String → Result RawIssueRequest) where
  abbrev pub checked : Result RawIssueRequest → Option CheckedRequest
  checked (thrown e) = none
  checked (ok raw) = elim (assert_issue_request_payload raw) [
    | Result.ok payload ↦ some payload
    | Result.thrown e ↦ none
  ]

  -- A value that is null, no JSON or no payload is skipped.
  unfoldable pub parse : Option String → Option CheckedRequest
  parse none = none
  parse (some raw) = checked (json_parse raw)

  module _ (em : Engine) (redis : Redis) (ttl max_delivery_attempts : ℕ) where
    -- The attempts that are left; each has its moment. The last failure is logged, and the record
    -- skipped.
    unfoldable pub attempt_delivery : CouponIssueRequestPayload → (ℕ → Moment) → ℕ → World → World
    attempt_delivery payload moments zero w = w
    attempt_delivery payload moments (suc attempts) w =
        unless_ok (attempt_delivery payload moments attempts)
          (process payload (moments attempts) em redis ttl w)

    -- What becomes of a message that passes the check with a value of another kind, which no row of the
    -- model can hold: a parameter.
    module _ (deliver_mistyped : RawIssueRequest → (ℕ → Moment) → World → World) where
      abbrev pub deliver_parsed : Option CheckedRequest → (ℕ → Moment) → World → World
      deliver_parsed none moments w = w
      deliver_parsed (some (typed payload)) moments w =
          attempt_delivery payload moments max_delivery_attempts w
      deliver_parsed (some (mistyped raw)) moments w = deliver_mistyped raw moments w

      unfoldable pub deliver : Option String → (ℕ → Moment) → World → World
      deliver value moments w = deliver_parsed (parse value) moments w

      -- `eachBatch`, with the moments of the attempts of the n-th message.
      unfoldable pub consume :
          Session → (ℕ → ℕ → Moment) → ℕ → List KafkaMessage → World → Batch World
      consume session moments max_records_per_batch messages w =
          each_batch (λ n value. deliver value (moments n)) session max_records_per_batch 0 messages
            w
