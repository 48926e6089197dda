-- ===== src/Contract/Reports.antt =====
-- What server-c puts into its outbox (coupon-issue.processor.ts) passes the check of server-b
-- (coupon-issue-result.consumer.ts over payloads.ts).
use coupon_nestjs.Prelude.{ℕ, ◌≡◌, List, [], ◌∷◌, All, String}
use coupon_nestjs.Common.Statuses.{CouponIssueResultStatus}
use coupon_nestjs.Common.Broker.{Broker}
use coupon_nestjs.Common.Cache.{Redis}
use coupon_nestjs.Common.Payloads.{
  CouponIssueResultPayload, raw_result_of, assert_issue_result_payload,
}
use coupon_nestjs.Effect.{ok}
use coupon_nestjs.ServerC.Engine.{Engine}
use coupon_nestjs.ServerC.Schema.{UserCouponRow, OutboxRow}
use coupon_nestjs.ServerC.World.{World}
use coupon_nestjs.ServerC.System.{Call, run}
use coupon_nestjs.ServerC.System.Invariants.{IsSound}
use coupon_nestjs.ServerC.System.Outbox.{
  as_reported, reported_code, Paired, IsReported, run-IsReported,
}

abbrev pub IsAccepted : CouponIssueResultPayload → Type 0
IsAccepted p = assert_issue_result_payload (raw_result_of p) ≡ ok p

-- A payload whose code goes with its status.
coded-IsAccepted :
    (p : CouponIssueResultPayload) (status : CouponIssueResultStatus) (code : String)
    → p.status ≡ status
    → p.coupon_code ≡ reported_code status code
    → IsAccepted p
unfolding assert_issue_result_payload
coded-IsAccepted p CouponIssueResultStatus.success code e e' = rw (e, e')
coded-IsAccepted p CouponIssueResultStatus.sold_out code e e' = rw (e, e')
coded-IsAccepted p CouponIssueResultStatus.failed code e e' = rw (e, e')

Paired-IsAccepted :
    (cs : List UserCouponRow) (os : List OutboxRow)
    → Paired cs os
    → All (λ o. IsAccepted o.payload) os
Paired-IsAccepted [] [] p = tt
Paired-IsAccepted [] (o ∷ os) p = elim p [ ]
Paired-IsAccepted (c ∷ cs) [] p = tt
Paired-IsAccepted (c ∷ cs) (o ∷ os) p = (
  coded-IsAccepted o.payload (as_reported c.status) c.code p.0.status p.0.code,
  Paired-IsAccepted cs os p.1,
)

-- From a sound database whose outbox reports its coupons, after any sequence of deliveries, redeem
-- calls and poller cycles, every report in the outbox passes the check of server-b unchanged.
pub run-IsAccepted :
    (em : Engine) (redis : Redis) (broker : Broker CouponIssueResultPayload) (ttl batch_size : ℕ)
    (calls : List Call) (w : World)
    → IsSound w.db
    → IsReported w.db w.log
    → let w' = run em redis broker ttl batch_size calls w in
      All (λ o. assert_issue_result_payload (raw_result_of o.payload) ≡ ok o.payload) w'.db.outbox
run-IsAccepted em redis broker ttl batch_size calls w s h =
    let w' = run em redis broker ttl batch_size calls w in
    Paired-IsAccepted w'.db.user_coupon w'.db.outbox
      (run-IsReported em redis broker ttl batch_size calls w s h).paired
