-- ===== src/Examples/Applying.antt =====
-- An application on the pending store in Redis: it is accepted, and its result concludes it.
use coupon_nestjs.Prelude.{
  false, ℕ, zero, suc, Option, pos, ◌⊎◌, inl, inr, ◌≡◌, refl, String, none, some, [],
}
use coupon_nestjs.Common.Statuses.{CouponIssueResultStatus}
use coupon_nestjs.Common.Payloads.{
  CouponIssueRequestPayload, CouponIssueResultPayload, RawIssueResult, raw_result_of,
}
use coupon_nestjs.Common.Broker.{Broker}
use coupon_nestjs.Common.Publishing.{broker_of}
use coupon_nestjs.Effect.{Result, ok}
use coupon_nestjs.ServerB.Pending.{PendingIssueStore}
use coupon_nestjs.ServerB.Accept.{Desk, accept}
use coupon_nestjs.ServerB.Accept.Outcomes.{Accepts, accept_lem}
use coupon_nestjs.ServerB.Redis.{Keyspace}
use coupon_nestjs.ServerB.Controller as Controller
use coupon_nestjs.ServerA.Client.{
  IssueResponsePayload, TimedResult, CallError, Called, other, rejected, issue,
}
use coupon_nestjs.Contract.Acceptance.{Applied, answer_of, issue-Applied}
use coupon_nestjs.Common.Text.{show_int}
use coupon_nestjs.ServerB.RedisStore.Port.{redis_store}
use coupon_nestjs.Examples.Memory.{memory_broker}
use coupon_nestjs.Examples.MemoryRedis.{memory_hashes}
use coupon_nestjs.Examples.Pending.{empty_keyspace, nothing_yet, empty_keyspace-Represents, exact}

abbrev store : PendingIssueStore Keyspace
store = redis_store memory_hashes 86400

abbrev empty_desk : Desk Keyspace
empty_desk = record { pendings = empty_keyspace; log = [] }

-- The publisher is not connected yet.
abbrev broker : Broker CouponIssueRequestPayload
broker = broker_of (memory_broker CouponIssueRequestPayload) false (ok tt)

accept_lem_example :
    Accepts "r" 200 "t"
      (pos 7)
      (pos 10)
      (pos 20)
      store
      broker
      empty_desk
      nothing_yet
      (accept store broker "r" 200 "t" (pos 7) (pos 10) (pos 20) empty_desk)
accept_lem_example =
    accept_lem "r" 200 "t" (pos 7) (pos 10) (pos 20) store broker empty_desk nothing_yet exact
      empty_keyspace-Represents

-- server-c reports the first user's coupon to server-b.
abbrev report : CouponIssueResultPayload
report = record {
  request_id = "aaaaaaaa-bbbb-cccc-dddd-eeeeeeeeeeee";
  user_id = pos 7;
  event_id = pos 10;
  coupon_type_id = pos 20;
  status = CouponIssueResultStatus.success;
  coupon_code = some "ABCDEFGH0123";
  processed_at = "2026-01-01T00:00:01Z";
}

abbrev reading_report : String → Result RawIssueResult
reading_report text = ok (raw_result_of report)

-- server-a calls twice, and the answer to the first call is lost.
abbrev answers : ℕ → Called (Option IssueResponsePayload × ℕ)
answers zero = rejected (other "AxiosError")
answers (suc n) =
    answer_of (λ status. none) 120
      (Controller.issue store (memory_broker CouponIssueRequestPayload) (λ k. k) "r" 200 "t"
        (some (show_int (pos 7))) (pos 10) (pos 20) empty_desk).0

abbrev retried : (ℕ → Called TimedResult) → Called TimedResult
retried calls = calls 1

abbrev Arrives : ℕ → Type 0
Arrives n =
    (answers n
      ≡ answer_of (λ status. none) 120
          (Controller.issue store (memory_broker CouponIssueRequestPayload) (λ k. k) "r" 200 "t"
            (some (show_int (pos 7))) (pos 10) (pos 20) empty_desk).0)
    ⊎ ((x : CallError) × (answers n ≡ rejected x))

arrives : (n : ℕ) → Arrives n
arrives zero = inr (other "AxiosError", refl)
arrives (suc n) = inl refl

issue-Applied_example :
    Applied
      (λ status. none)
      (λ k. k)
      store
      (memory_broker CouponIssueRequestPayload)
      (pos 7)
      (pos 10)
      (pos 20)
      (λ n. "r")
      (λ n. 200)
      (λ n. "t")
      (λ n. 120)
      (λ n. empty_desk)
      (λ n. nothing_yet)
      (issue retried answers)
issue-Applied_example =
    issue-Applied (λ status. none) (λ k. k) store (memory_broker CouponIssueRequestPayload) (pos 7)
      (pos 10) (pos 20) (λ n. "r") (λ n. 200) (λ n. "t") (λ n. 120) (λ n. empty_desk)
      (λ n. nothing_yet) retried answers (λ calls. inl (1, refl)) arrives refl exact
      (λ n. empty_keyspace-Represents)
