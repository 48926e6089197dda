-- ===== src/Examples/Servers.antt =====
-- The entrance of server-a, the consumers, the payloads and the coupon codes at concrete inputs.

use coupon_nestjs.Prelude.{
  int_eq, if◌then◌else◌, inl, inr, ◌==◌, nat_eq, All, ℕ, suc, ℤ, pos, ◌≡◌, ◌↔◌, refl, String, true,
  false, none, some, List, [], ◌∷◌, ◌++◌, arith,
}
use coupon_nestjs.Common.Consuming.{KafkaMessage, Session, Starts, start_with_retry}
use coupon_nestjs.Common.Consuming.Batches.{Resolves, each_batch-Resolves}
use coupon_nestjs.Common.Consuming.Backoff.{Settles, start_with_retry_lem}
use coupon_nestjs.Common.Errors.{driver}
use coupon_nestjs.Common.Payloads.{
  raw_result_of, assert_issue_result_payload, assert_issue_request_payload,
  CouponIssueResultPayload, IssueAcceptanceResult, RawIssueRequest, RawNumber, mistyped, raw_of,
  acceptance_accepted,
}
use coupon_nestjs.Common.Payloads.Checks.{Passes, HasKind, assert_issue_request_payload_lem}
use coupon_nestjs.Common.CouponCode.{coupon_code_of, generate}
use coupon_nestjs.Common.CouponCode.Generated.{of-generate}
use coupon_nestjs.Contract.Reports.{run-IsAccepted}
use coupon_nestjs.ServerC.System.{run}
use coupon_nestjs.Effect.{Result, ok, thrown}
use coupon_nestjs.ServerA.Issue.{IssueCommand, Entrance}
use coupon_nestjs.ServerA.RequestLog.{RequestTable, Inserts, inserted_row}
use coupon_nestjs.ServerA.Issue as A
use coupon_nestjs.ServerC.Consumer.{deliver, consume}
use coupon_nestjs.ServerC.Consumer.Delivery.{Delivers, deliver_lem}
use coupon_nestjs.Examples.Memory.{memory_engine, memory_redis, memory_broker}
use coupon_nestjs.Examples.Issuing.{
  first_world, first_db-IsReported, first_request, moment, calls, first_db-IsSound,
}

abbrev memory_requests : RequestTable
memory_requests = record {
  insert = λ v rows. (ok (some (pos 1)), rows ++ inserted_row (pos 1) 300 v ∷ []);
  insert_lem = λ v rows. Inserts.inserted (pos 1) 300 refl;
}

-- What server-b answers in the example: ACCEPTED, with the number of its calls as its state.
abbrev accepting : ℤ → ℤ → ℤ → ℕ → IssueAcceptanceResult × ℕ
accepting u e t n = (acceptance_accepted "r", suc n)

abbrev entrance : Entrance ℕ
entrance = record { log = []; cache = λ key. none; downstream = 0 }

abbrev command : IssueCommand
command = record { user_id = pos 7; event_id = pos 10; coupon_type_id = pos 20 }

-- A parser that reads one request, whatever the text.
abbrev reading : String → Result RawIssueRequest
reading text = ok (raw_of first_request)

deliver_lem_example :
    let w' =
      deliver reading memory_engine memory_redis 3600 10
        (λ raw k w. w)
        (some "{}")
        (λ k. moment 200 "ABCDEFGH0123")
        first_world in
    Delivers memory_engine memory_redis 3600 10 reading
      (λ raw k w. w)
      (some "{}")
      (λ k. moment 200 "ABCDEFGH0123")
      first_world
      w'
deliver_lem_example =
    deliver_lem memory_engine memory_redis 3600 10 reading (λ raw k w. w) (some "{}")
      (λ k. moment 200 "ABCDEFGH0123") first_world

abbrev messages : List KafkaMessage
messages = record { value = some "{}"; offset = "0" } ∷ record { value = none; offset = "1" } ∷ []

-- The heartbeat after the second message fails.
abbrev session : Session
session = record {
  stops = λ n. false;
  commits = λ n. ok tt;
  heartbeats = λ n. if n == 1 then thrown (driver "REBALANCE_IN_PROGRESS") else ok tt;
}

each_batch-Resolves_example :
    (k : ℕ) × Resolves
      (λ n value.
        deliver reading memory_engine memory_redis 3600 10
          (λ raw k w. w)
          value
          (λ j. moment 200 "ABCDEFGH0123"))
      session
      2
      0
      messages
      first_world
      k
      (consume reading memory_engine memory_redis 3600 10
        (λ raw k w. w)
        session
        (λ n j. moment 200 "ABCDEFGH0123")
        2
        messages
        first_world)
unfolding consume
each_batch-Resolves_example =
    each_batch-Resolves
      (λ n value.
        deliver reading memory_engine memory_redis 3600 10 (λ raw k w. w) value
          (λ j. moment 200 "ABCDEFGH0123"))
      session 2 0 messages first_world

-- The broker is there at the third attempt.
abbrev starts : Starts
starts = record { succeeds = λ k. k == 2; stopped_before = λ k. false; stopped_after = λ k. false }

start_with_retry_lem_example : Settles starts 2 0 1000 (start_with_retry starts 3 0 1000)
start_with_retry_lem_example =
    start_with_retry_lem starts 2 3 0 1000 (inr (inl refl)) (omega arith) (omega arith)

run-IsAccepted_example :
    All
      (λ o. assert_issue_result_payload (raw_result_of o.payload) ≡ ok o.payload)
      (run memory_engine memory_redis
        (memory_broker CouponIssueResultPayload)
        3600
        50
        calls
        first_world).db.outbox
run-IsAccepted_example =
    run-IsAccepted memory_engine memory_redis (memory_broker CouponIssueResultPayload) 3600 50 calls
      first_world first_db-IsSound first_db-IsReported

-- A message whose user is a text: `"7" > 0`.
abbrev odd_request : RawIssueRequest
odd_request = record (raw_of first_request) { user_id = RawNumber.other true }

assert_issue_request_payload_lem_example :
    (assert_issue_request_payload odd_request ≡ ok (mistyped odd_request))
    ↔ (Passes odd_request × HasKind odd_request (mistyped odd_request))
assert_issue_request_payload_lem_example =
    assert_issue_request_payload_lem odd_request (mistyped odd_request)

of-generate_example : coupon_code_of (some (generate (λ i. 3))) ≡ ok (generate (λ i. 3))
of-generate_example = of-generate (λ i. 3) (λ i. omega arith)
