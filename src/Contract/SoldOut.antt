-- ===== src/Contract/SoldOut.antt =====
-- The sold-out key between server-c, which writes it (coupon-availability.cache.ts,
-- coupon-issue.processor.ts), and server-a, which reads it (coupon-availability.cache.ts,
-- issue-request.service.ts).
use coupon_nestjs.Prelude.{ℕ, ℤ, ◌≡◌, refl, ap, true, is_some, List, string_eq}
use coupon_nestjs.Common.Broker.{Broker}
use coupon_nestjs.Common.Cache.{Cache, Redis}
use coupon_nestjs.Common.Payloads.{CouponIssueResultPayload}
use coupon_nestjs.Effect.{ok}
use coupon_nestjs.ServerA.Issue.{is_sold_out}
use coupon_nestjs.ServerA.Issue as A
use coupon_nestjs.ServerA.Issue.Outcomes.{Looks, looked, blind, is_sold_out_lem}
use coupon_nestjs.ServerC.Engine.{Engine}
use coupon_nestjs.ServerC.SoldOut.{coupon_available}
use coupon_nestjs.ServerC.World.{World}
use coupon_nestjs.ServerC.System.{Call, run}
use coupon_nestjs.ServerC.System.Invariants.{IsSound}
use coupon_nestjs.ServerC.System.Marks.{IsMarkedRight, Marks, run-IsMarkedRight}

-- The two servers spell one key.
same_key : (e t : ℤ) → A.coupon_available e t ≡ coupon_available e t
unfolding A.coupon_available coupon_available
same_key e t = refl

looked_true :
    (redis : Redis) (e t : ℤ) (cache cache' : Cache)
    → Looks redis e t cache (ok true, cache')
    → is_some (cache (coupon_available e t)) ≡ true
looked_true redis e t cache cache' (looked h) = rw (← same_key e t) (cc h)
looked_true redis e t cache cache' (blind x f h) = absurd (cc (ap (λ p. p.0) h))

-- From a sound database with a right cache, after any sequence of deliveries, redeem calls and poller
-- cycles of server-c: when server-a finds a coupon type sold out, the sold-out key that it read is the
-- key of a coupon type whose stock row stands at zero.
pub is_sold_out-emptied :
    (em : Engine) (redis : Redis) (broker : Broker CouponIssueResultPayload) (ttl batch_size : ℕ)
    (calls : List Call) (w : World) (e t : ℤ) (cache : Cache)
    → IsSound w.db
    → IsMarkedRight w.db.inventory w.cache
    → let w' = run em redis broker ttl batch_size calls w in
      is_sold_out redis e t w'.cache ≡ (ok true, cache)
      → Marks (coupon_available e t) w'.db.inventory
is_sold_out-emptied em redis broker ttl batch_size calls w e t cache s h says =
    let w' = run em redis broker ttl batch_size calls w in
    run-IsMarkedRight em redis broker ttl batch_size calls w s h e t
      (looked_true redis e t w'.cache cache (rw says at (is_sold_out_lem redis e t w'.cache)))
