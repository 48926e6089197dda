-- ===== src/ServerB/RedisStore/Port.antt =====
-- The store on Redis fills the port, so that acceptance, the scheduler and the result consumer run on
-- it.
use coupon_nestjs.Prelude.{ℕ}
use coupon_nestjs.ServerB.Pending.{PendingIssueStore}
use coupon_nestjs.ServerB.Redis.{Keyspace, Redis}
use coupon_nestjs.ServerB.RedisStore.{save_pending_if_absent, record_republish, mark_result}
use coupon_nestjs.ServerB.RedisStore.Represents.{AreExact, Represents, RepresentsBeside}
use coupon_nestjs.ServerB.RedisStore.Saves.{save_pending_if_absent_lem}
use coupon_nestjs.ServerB.RedisStore.Updates.{record_republish_lem, mark_result_lem}

abbrev pub redis_store : Redis → ℕ → PendingIssueStore Keyspace
redis_store redis ttl_seconds = record {
  Handles = AreExact;
  Represents = Represents;
  Besides = RepresentsBeside;
  save_pending_if_absent = save_pending_if_absent redis ttl_seconds;
  save_pending_if_absent_lem =
      λ request_id u e t. save_pending_if_absent_lem redis ttl_seconds u t request_id e;
  record_republish = record_republish redis ttl_seconds;
  record_republish_lem = λ u t. record_republish_lem redis ttl_seconds u t;
  mark_result = mark_result redis ttl_seconds;
  mark_result_lem = λ u t. mark_result_lem redis ttl_seconds u t;
}
