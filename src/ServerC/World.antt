-- ===== src/ServerC/World.antt =====
-- What the methods of server-c change: its database, the Redis that the servers share, the topic
-- `coupon-issue-result`, and the flag of the outbox poller.
use coupon_nestjs.Prelude.{Bool, List}
use coupon_nestjs.Common.Payloads.{CouponIssueResultPayload}
use coupon_nestjs.Common.Broker.{Message}
use coupon_nestjs.Common.Cache.{Cache}
use coupon_nestjs.Effect.{Result, Async}
use coupon_nestjs.ServerC.Schema.{Db}

abbrev pub ResultLog : Type 0
ResultLog = List (Message CouponIssueResultPayload)

pub record World : Type 0 where
  pub db : Db
  pub cache : Cache
  pub log : ResultLog
  -- `OutboxPoller.running`
  pub running : Bool

module _ {A : Type 0} where
  abbrev with_db : World → Result A × Db → Result A × World
  with_db w (r, db) = (r, record w { db = db })

  abbrev with_cache : World → Result A × Cache → Result A × World
  with_cache w (r, cache) = (r, record w { cache = cache })

  abbrev with_log : World → Result A × ResultLog → Result A × World
  with_log w (r, log) = (r, record w { log = log })

  abbrev pub on_db : Async Db A → Async World A
  on_db m w = with_db w (m w.db)

  abbrev pub on_cache : Async Cache A → Async World A
  on_cache m w = with_cache w (m w.cache)

  abbrev pub on_log : Async ResultLog A → Async World A
  on_log m w = with_log w (m w.log)
