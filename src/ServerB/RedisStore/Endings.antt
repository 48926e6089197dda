-- ===== src/ServerB/RedisStore/Endings.antt =====
-- What the operations that write an application end with: a new time to live, and its member.
use coupon_nestjs.Prelude.{
  ℕ, ℤ, ◌≡◌, refl, ◌∙◌, none, some, lookup, lookup-insert, lookup-erase, string_eq, ==_refl,
}
use coupon_nestjs.Effect.{Async, ◌>>◌}
use coupon_nestjs.ServerB.Keys.{pending_hash, pending_zset_member}
use coupon_nestjs.ServerB.Redis.{Fields, Keyspace, Redis, with_hash, expiring, scored, unscored}
use coupon_nestjs.ServerB.RedisStore.Runs.{Runs, Runs-bind, Runs-expire, Runs-zadd}
use coupon_nestjs.ServerB.RedisStore.Hashes.{hash_itself, hash-expiring}

module _ (redis : Redis) (ttl_seconds : ℕ) (u t : ℤ) where
  -- What every operation ends with.
  abbrev pub refreshed : Keyspace → Keyspace
  refreshed ks = expiring (pending_hash u t) (ks.hashes (pending_hash u t)) ks

  pub hash-refreshed :
      (h : Fields) (ks : Keyspace)
      → (refreshed (with_hash (pending_hash u t) h ks)).hashes (pending_hash u t) ≡ h
  hash-refreshed h ks =
      hash-expiring (pending_hash u t)
        ((with_hash (pending_hash u t) h ks).hashes (pending_hash u t))
        (with_hash (pending_hash u t) h ks) (pending_hash u t)
      ∙ hash_itself (pending_hash u t) h ks

  pub scored_itself :
      (score : ℕ) (ks : Keyspace)
      → lookup (pending_zset_member u t) (scored (pending_zset_member u t) score ks).zset
        ≡ some score
  scored_itself score ks =
      lookup-insert (pending_zset_member u t) _ score ks.zset
      ∙ rw (==_refl (pending_zset_member u t)) refl

  pub unscored_itself :
      (ks : Keyspace)
      → lookup (pending_zset_member u t) (unscored (pending_zset_member u t) ks).zset ≡ none
  unscored_itself ks =
      lookup-erase (pending_zset_member u t) _ ks.zset ∙ rw (==_refl (pending_zset_member u t)) refl

  -- Some commands, a new time to live, and a member in the sorted set.
  pub Runs-scored :
      (m : Async Keyspace (Unit {0})) (score : ℕ) (ks ks' : Keyspace)
      → Runs u t tt ks ks' (m ks)
      → Runs u t tt ks (scored (pending_zset_member u t) score (refreshed ks')) (
          (m
              >> redis.expire (pending_hash u t) ttl_seconds
              >> redis.zadd score (pending_zset_member u t))
            ks)
  Runs-scored m score ks ks' r =
      Runs-bind u t (λ _. redis.zadd score (pending_zset_member u t)) tt tt ks (refreshed ks') _ _
        (Runs-bind u t (λ _. redis.expire (pending_hash u t) ttl_seconds) tt tt ks ks' _ (m ks) r
          (Runs-expire u t redis ks' ttl_seconds))
        (Runs-zadd u t redis (refreshed ks') score)
