-- ===== src/ServerB/RedisStore/Updates.antt =====
-- A republish and a result do what the port of the pending store promises.
use coupon_nestjs.Prelude.{
  ℕ, ℤ, ◌+◌, ◌≡◌, refl, ap, ◌∙◌, String, Option, none, some, [], ◌∷◌, insert, string_eq, ==_refl,
}
use coupon_nestjs.Common.Text.{show_nat}
use coupon_nestjs.Common.Statuses.{IssuePendingStatus}
use coupon_nestjs.Effect.{pure}
use coupon_nestjs.ServerB.Pending.{
  put_itself, put-Beside, PendingIssue, Pendings, put, republished, concluded,
}
use coupon_nestjs.ServerB.Keys.{pending_hash, pending_zset_member}
use coupon_nestjs.ServerB.Redis.{Fields, Keyspace, Redis, with_hash, set_fields, scored, unscored}
use coupon_nestjs.ServerB.RedisStore.{status_text, record_republish, set_code, mark_result}
use coupon_nestjs.ServerB.RedisStore.Runs.{
  Runs, Runs-bind, Runs-pure, Runs-hset, Runs-expire, Runs-zrem, Runs-of_Applies, Spares-with_hash,
}
use coupon_nestjs.ServerB.RedisStore.Represents.{
  Stores, AreExact, Represents, Follows, Follows-of_Runs,
}
use coupon_nestjs.ServerB.RedisStore.Hashes.{
  hash_itself, hash-expiring, Holds-republished, concluded_hash, Holds-concluded,
}
use coupon_nestjs.ServerB.RedisStore.Endings.{
  refreshed, hash-refreshed, scored_itself, unscored_itself, Runs-scored,
}

module _ (redis : Redis) (ttl_seconds : ℕ) (u t : ℤ) where
  -- A republish of an application that is there counts one attempt more and puts the member back into
  -- the sorted set with the new time, or breaks off and touches no other application.
  pub record_republish_lem :
      (now : ℕ) (ks : Keyspace) (s : Pendings) (p : PendingIssue)
      → AreExact u t
      → Represents ks s
      → s u t ≡ some p
      → Follows u t s
          (put u t (republished p now) s)
          (p.publish_attempts + 1)
          (record_republish redis ttl_seconds u t now ks)
  unfolding record_republish
  record_republish_lem now ks s p exact r there =
      let K = pending_hash u t in
      let at : Stores u t ks p = rw there at (r.entries u t) in
      let h1 = insert "publishAttempts" (show_nat (p.publish_attempts + 1)) (ks.hashes K) in
      let ks1 = with_hash K h1 ks in
      let ks2 = set_fields K (("lastPublishedAt", show_nat now) ∷ []) ks1 in
      let ks4 = scored (pending_zset_member u t) now (refreshed redis ttl_seconds u t ks2) in
      let hash : ks4.hashes K ≡ insert "lastPublishedAt" (show_nat now) h1 =
        hash-refreshed redis ttl_seconds u t
          (insert "lastPublishedAt" (show_nat now) (ks1.hashes K)) ks1
        ∙ ap (insert "lastPublishedAt" (show_nat now)) (hash_itself K h1 ks) in
      let now_there : Stores u t ks4 (republished p now) = record {
        user = at.user;
        coupon_type = at.coupon_type;
        holds = rw hash (Holds-republished (ks.hashes K) p now at.holds);
        score = scored_itself redis ttl_seconds u t now (refreshed redis ttl_seconds u t ks2);
      } in
      Follows-of_Runs u t ks ks4 _ _ s (put u t (republished p now) s) exact r
        (rw (put_itself u t (republished p now) s) now_there) (put-Beside u t (republished p now) s)
        (Runs-bind u t _ (p.publish_attempts + 1) (p.publish_attempts + 1) ks ks1 ks4 _
          (Runs-of_Applies u t (p.publish_attempts + 1) ks ks1 _
            (redis.hincrby_lem K "publishAttempts" p.publish_attempts 1 ks at.holds.attempts)
            (Spares-with_hash u t h1 ks))
          (Runs-bind u t (λ _. pure (p.publish_attempts + 1)) tt (p.publish_attempts + 1) ks1 ks4
            ks4 _
            (Runs-scored redis ttl_seconds u t
              (redis.hset K (("lastPublishedAt", show_nat now) ∷ [])) now ks1 ks2
              (Runs-hset u t redis ks1 (("lastPublishedAt", show_nat now) ∷ [])))
            (Runs-pure u t (p.publish_attempts + 1) ks4)))

  -- A new code, if there is one.
  abbrev coded : Option String → Keyspace → Keyspace
  coded none ks = ks
  coded (some code) ks = set_fields (pending_hash u t) (("code", code) ∷ []) ks

  Runs-set_code :
      (code : Option String) (ks : Keyspace)
      → Runs u t tt ks (coded code ks) (set_code redis ttl_seconds (pending_hash u t) code ks)
  Runs-set_code none ks = Runs-pure u t tt ks
  Runs-set_code (some code) ks = Runs-hset u t redis ks (("code", code) ∷ [])

  hash-coded :
      (status : IssuePendingStatus) (code : Option String) (ks : Keyspace)
      → (coded code (set_fields (pending_hash u t) (("status", status_text status) ∷ []) ks)).hashes
          (pending_hash u t)
        ≡ concluded_hash status code (ks.hashes (pending_hash u t))
  hash-coded status none ks = hash_itself (pending_hash u t) _ ks
  hash-coded status (some code) ks = rw (==_refl (pending_hash u t)) refl

  -- A result of an application that is there is stored in its hash, whose member leaves the sorted
  -- set, or the call breaks off and touches no other application.
  pub mark_result_lem :
      (status : IssuePendingStatus) (code : Option String) (ks : Keyspace) (s : Pendings)
      (p : PendingIssue)
      → AreExact u t
      → Represents ks s
      → s u t ≡ some p
      → Follows u t s
          (put u t (concluded p status code) s)
          tt
          (mark_result redis ttl_seconds u t status code ks)
  unfolding mark_result
  mark_result_lem status code ks s p exact r there =
      let K = pending_hash u t in
      let at : Stores u t ks p = rw there at (r.entries u t) in
      let fields : Fields = ("status", status_text status) ∷ [] in
      let ks1 = set_fields K fields ks in
      let ks2 = coded code ks1 in
      let ks4 = unscored (pending_zset_member u t) (refreshed redis ttl_seconds u t ks2) in
      let hash : ks4.hashes K ≡ concluded_hash status code (ks.hashes K) =
        hash-expiring K (ks2.hashes K) ks2 K ∙ hash-coded status code ks in
      let now_there : Stores u t ks4 (concluded p status code) = record {
        user = at.user;
        coupon_type = at.coupon_type;
        holds = rw hash (Holds-concluded (ks.hashes K) p status code at.holds);
        score = unscored_itself redis ttl_seconds u t (refreshed redis ttl_seconds u t ks2);
      } in
      Follows-of_Runs u t ks ks4 _ _ s (put u t (concluded p status code) s) exact r
        (rw (put_itself u t (concluded p status code) s) now_there)
        (put-Beside u t (concluded p status code) s)
        (Runs-bind u t (λ _. redis.zrem (pending_zset_member u t)) tt tt ks
          (refreshed redis ttl_seconds u t ks2) ks4 _
          (Runs-bind u t (λ _. redis.expire K ttl_seconds) tt tt ks ks2
            (refreshed redis ttl_seconds u t ks2) _
            (Runs-bind u t (λ _. set_code redis ttl_seconds K code) tt tt ks ks1 ks2 _
              (Runs-hset u t redis ks fields) (Runs-set_code code ks1))
            (Runs-expire u t redis ks2 ttl_seconds))
          (Runs-zrem u t redis (refreshed redis ttl_seconds u t ks2)))
