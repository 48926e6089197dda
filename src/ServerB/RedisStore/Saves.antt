-- ===== src/ServerB/RedisStore/Saves.antt =====
-- An application is stored once, as the port of the pending store promises.
use coupon_nestjs.Prelude.{
  not, ℕ, ℤ, ◌≡◌, refl, ap, ◌∙◌, inl, inr, String, true, false, none, some, is_some, Option-cases,
  [], insert, insert_all, string_eq,
}
use coupon_nestjs.Common.Text.{show_int}
use coupon_nestjs.Effect.{pure}
use coupon_nestjs.ServerB.Pending.{
  put_itself, put-Beside, saved, PendingIssue, Pendings, put, first_pending,
}
use coupon_nestjs.ServerB.Keys.{pending_hash, pending_zset_member}
use coupon_nestjs.ServerB.Redis.{Fields, Keyspace, Redis, with_hash, set_fields, scored}
use coupon_nestjs.ServerB.RedisStore.{first_fields, fill_pending, save_pending_if_absent}
use coupon_nestjs.ServerB.RedisStore.Runs.{
  Runs-bind, Runs-pure, Runs-hset, Runs-of_Applies, Spares-with_hash,
}
use coupon_nestjs.ServerB.RedisStore.Represents.{
  Stores, At, AreExact, Represents, Follows, Follows-of_Runs,
}
use coupon_nestjs.ServerB.RedisStore.Hashes.{hash_itself, Holds-first}
use coupon_nestjs.ServerB.RedisStore.Endings.{refreshed, hash-refreshed, scored_itself, Runs-scored}

module _ (redis : Redis) (ttl_seconds : ℕ) (u t : ℤ) where
  -- The first application of the user and the coupon type.
  save_first :
      (request_id : String) (e : ℤ) (created_at : ℕ) (ks : Keyspace) (s : Pendings)
      → AreExact u t
      → Represents ks s
      → s u t ≡ none
      → Follows u t s
          (put u t (first_pending request_id u e t created_at) s)
          true
          (save_pending_if_absent redis ttl_seconds request_id u e t created_at ks)
  unfolding save_pending_if_absent fill_pending
  save_first request_id e created_at ks s exact r there =
      let at : At u t ks none = rw there at (r.entries u t) in
      let K = pending_hash u t in
      let p = first_pending request_id u e t created_at in
      let h1 : Fields = insert "userId" (show_int u) [] in
      let fields = first_fields request_id u e t created_at in
      let ks1 = with_hash K h1 ks in
      let ks2 = set_fields K fields ks1 in
      let ks4 = scored (pending_zset_member u t) created_at (refreshed redis ttl_seconds u t ks2) in
      let hash : ks4.hashes K ≡ insert_all fields h1 =
        hash-refreshed redis ttl_seconds u t (insert_all fields (ks1.hashes K)) ks1
        ∙ ap (insert_all fields) (hash_itself K h1 ks) in
      let now_there : Stores u t ks4 p = record {
        user = refl;
        coupon_type = refl;
        holds = rw hash (Holds-first request_id u e t created_at);
        score =
            scored_itself redis ttl_seconds u t created_at (refreshed redis ttl_seconds u t ks2);
      } in
      Follows-of_Runs u t ks ks4 _ _ s (put u t p s) exact r (rw (put_itself u t p s) now_there)
        (put-Beside u t p s)
        (Runs-bind u t _ 1 true ks ks1 ks4 _
          (Runs-of_Applies u t 1 ks ks1 _ (rw at at (redis.hsetnx_lem K "userId" (show_int u) ks))
            (Spares-with_hash u t h1 ks))
          (Runs-bind u t (λ _. pure true) tt true ks1 ks4 ks4 _
            (Runs-scored redis ttl_seconds u t (redis.hset K fields) created_at ks1 ks2
              (Runs-hset u t redis ks1 fields))
            (Runs-pure u t true ks4)))

  -- Another one finds it.
  save_again :
      (request_id : String) (e : ℤ) (created_at : ℕ) (ks : Keyspace) (s : Pendings)
      → AreExact u t
      → Represents ks s
      → (q : PendingIssue) → s u t ≡ some q
      → Follows u t s s false
          (save_pending_if_absent redis ttl_seconds request_id u e t created_at ks)
  unfolding save_pending_if_absent
  save_again request_id e created_at ks s exact r q there =
      let at : Stores u t ks q = rw there at (r.entries u t) in
      let K = pending_hash u t in
      let ks1 = with_hash K (ks.hashes K) ks in
      let still_there : Stores u t ks1 q = record {
        user = at.user;
        coupon_type = at.coupon_type;
        holds = rw (hash_itself K (ks.hashes K) ks) at.holds;
        score = at.score;
      } in
      Follows-of_Runs u t ks ks1 _ _ s s exact r (rw there still_there) (λ u' t' other. refl)
        (Runs-bind u t _ 0 false ks ks1 ks1 _
          (Runs-of_Applies u t 0 ks ks1 _
            (rw at.holds.user at (redis.hsetnx_lem K "userId" (show_int u) ks))
            (Spares-with_hash u t (ks.hashes K) ks))
          (Runs-pure u t false ks1))

  -- An application is stored with its member if there is none yet, and is found there otherwise, or
  -- the call breaks off and touches no other application.
  pub save_pending_if_absent_lem :
      (request_id : String) (e : ℤ) (created_at : ℕ) (ks : Keyspace) (s : Pendings)
      → AreExact u t
      → Represents ks s
      → Follows u t s
          (saved (s u t) (first_pending request_id u e t created_at) s)
          (not (is_some (s u t)))
          (save_pending_if_absent redis ttl_seconds request_id u e t created_at ks)
  save_pending_if_absent_lem request_id e created_at ks s exact r = elim (Option-cases (s u t)) [
    | inl there ↦ rw there (save_first request_id e created_at ks s exact r there)
    | inr (q, there) ↦ rw there (save_again request_id e created_at ks s exact r q there)
  ]
