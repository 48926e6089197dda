-- ===== src/ServerC/System.antt =====
-- server-c at work: deliveries of issue requests from Kafka, redeem calls over HTTP and cycles of the
-- outbox poller, in any order.
-- Each runs its own transaction, and the locks of MySQL put the transactions one after another.
pub mod Invariants
pub mod Outbox
pub mod Marks
use coupon_nestjs.Prelude.{ℕ, List, [], ◌∷◌}
use coupon_nestjs.Common.Payloads.{CouponIssueRequestPayload, CouponIssueResultPayload}
use coupon_nestjs.Common.Broker.{Broker}
use coupon_nestjs.ServerC.Poller.{poll}
use coupon_nestjs.Common.Cache.{Redis}
use coupon_nestjs.ServerC.Engine.{Engine}
use coupon_nestjs.ServerC.World.{World, on_db}
use coupon_nestjs.ServerC.Issue.{Moment, process}
use coupon_nestjs.ServerC.Redeem.{RedeemCommand, redeem}

pub data Call : Type 0 where
  deliver : CouponIssueRequestPayload → Moment → Call
  redeem_at : RedeemCommand → ℕ → Call
  poll_at : ℕ → Call

module _ (em : Engine) (redis : Redis) (broker : Broker CouponIssueResultPayload)
    (ttl batch_size : ℕ) where
  -- What a call leaves, whatever it returned or threw.
  unfoldable pub step : Call → World → World
  step (deliver request at) w = (process request at em redis ttl w).1
  step (redeem_at command now) w = (on_db (redeem em command now) w).1
  step (poll_at now) w = (poll em broker batch_size now w).1

  abbrev pub run : List Call → World → World
  run [] w = w
  run (call ∷ calls) w = run calls (step call w)
