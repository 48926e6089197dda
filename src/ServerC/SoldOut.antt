-- ===== src/ServerC/SoldOut.antt =====
-- apps/server-c/src/infrastructure/redis/coupon-availability.cache.ts: the writing side of the
-- sold-out cache.
use coupon_nestjs.Prelude.{ℕ, ℤ, ◌≡◌, refl, ◌⊎◌, inl, inr, String}
use coupon_nestjs.Common.Text.{◌<+>◌, show_int}
use coupon_nestjs.Common.Cache.{Cache, Redis, Sets, stored}
use coupon_nestjs.Effect.{Result, ok, Async, pure, try_catch}

-- The key that server-c writes and server-a reads.
unfoldable pub coupon_available : ℤ → ℤ → String
coupon_available event_id coupon_type_id =
    "coupon:available:" <+> show_int event_id <+> ":" <+> show_int coupon_type_id

abbrev pub sentinel_value : String
sentinel_value = "1"

-- A failed write is logged and forgotten.
unfoldable pub mark_sold_out : Redis → ℕ → ℤ → ℤ → Async Cache (Unit {0})
mark_sold_out redis ttl_seconds event_id coupon_type_id =
    try_catch (redis.set (coupon_available event_id coupon_type_id) sentinel_value ttl_seconds)
      (λ _. pure tt)

-- The write always returns, and leaves the cache alone or with the mark.
pub mark_sold_out_lem :
    (redis : Redis) (ttl_seconds : ℕ) (event_id coupon_type_id : ℤ) (cache : Cache)
    → let out : Result (Unit {0}) × Cache =
        mark_sold_out redis ttl_seconds event_id coupon_type_id cache in
      (out ≡ (ok tt, stored (coupon_available event_id coupon_type_id) sentinel_value cache))
      ⊎ (out ≡ (ok tt, cache))
unfolding mark_sold_out
mark_sold_out_lem redis ttl event_id coupon_type_id cache =
    elim (redis.set_lem (coupon_available event_id coupon_type_id) sentinel_value ttl cache) [
      | Sets.set_ok e ↦ rw e (inl refl)
      | Sets.lost x e ↦ rw e (inl refl)
      | Sets.failed x e ↦ rw e (inr refl)
    ]
