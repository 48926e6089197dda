-- ===== src/ServerB/Publisher.antt =====
-- apps/server-b/src/infrastructure/kafka/issue-request.publisher.ts: a payload is checked before it is
-- sent. The timeout only ends the wait, so to the caller it is one more way for the send to fail.
use coupon_nestjs.Prelude.{List}
use coupon_nestjs.Common.Text.{show_int}
use coupon_nestjs.Common.Broker.{Broker, Message}
use coupon_nestjs.Common.Payloads.{CouponIssueRequestPayload, raw_of, assert_issue_request_payload}
use coupon_nestjs.Common.Publishing.{Publisher, publish}
use coupon_nestjs.Effect.{Result, Async, lift, ◌>>=◌}

abbrev pub RequestLog : Type 0
RequestLog = List (Message CouponIssueRequestPayload)

-- One user's messages have one key.
abbrev pub request_message : CouponIssueRequestPayload → Message CouponIssueRequestPayload
request_message payload = record { key = show_int payload.user_id; value = payload }

unfoldable pub publish_with_timeout :
    Broker CouponIssueRequestPayload → CouponIssueRequestPayload → Async RequestLog (Unit {0})
publish_with_timeout broker payload =
    lift (assert_issue_request_payload (raw_of payload)) >>= λ checked.
    broker.send (request_message payload)

-- What the broker's `send` is here: `sendInternal`, over the producer of kafkajs.
abbrev pub send_internal :
    Broker CouponIssueRequestPayload
    → Result (Unit {0})
    → CouponIssueRequestPayload
    → Async (Publisher CouponIssueRequestPayload) (Unit {0})
send_internal producer connects payload = publish producer connects (request_message payload)
