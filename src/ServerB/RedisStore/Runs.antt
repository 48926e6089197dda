-- ===== src/ServerB/RedisStore/Runs.antt =====
-- Sequences of commands on the hash and the member of one user and coupon type: they run to their end,
-- or break off with an exception, and spare all other hashes and members.
use coupon_nestjs.Prelude.{
  ℕ, ℤ, ◌≡◌, refl, ◌∙◌, String, false, ◌&&◌, [], ◌∷◌, lookup, lookup-insert, lookup-erase, ◌==◌,
  int_eq, string_eq,
}
use coupon_nestjs.Common.Errors.{Exception}
use coupon_nestjs.Effect.{Result, ok, thrown, Async, pure, continue}
use coupon_nestjs.ServerB.Keys.{pending_hash, pending_zset_member}
use coupon_nestjs.ServerB.Keys.Apart.{same_hash}
use coupon_nestjs.ServerB.Redis.{
  Fields, Keyspace, Redis, with_hash, set_fields, expiring, scored, unscored, Applies,
}

module _ (u t : ℤ) where
  pub record Spares (ks ks' : Keyspace) : Type 0 where
    pub hashes :
        (u' t' : ℤ)
        → (u' == u && t' == t) ≡ false
        → ks'.hashes (pending_hash u' t') ≡ ks.hashes (pending_hash u' t')
    pub members :
        (m : String) → (pending_zset_member u t == m) ≡ false → lookup m ks'.zset ≡ lookup m ks.zset

  pub Spares-refl : (ks : Keyspace) → Spares ks ks
  Spares-refl ks = record { hashes = λ u' t' h. refl; members = λ m h. refl }

  pub Spares-trans : (a b c : Keyspace) → Spares a b → Spares b c → Spares a c
  Spares-trans a b c x y = record {
    hashes = λ u' t' h. y.hashes u' t' h ∙ x.hashes u' t' h;
    members = λ m h. y.members m h ∙ x.members m h;
  }

  pub Spares-with_hash :
      (h : Fields) (ks : Keyspace) → Spares ks (with_hash (pending_hash u t) h ks)
  Spares-with_hash h ks = record {
    hashes = λ u' t' other. rw (same_hash u' t' u t, other) refl;
    members = λ m other. refl;
  }

  pub Spares-expiring : (h : Fields) (ks : Keyspace) → Spares ks (expiring (pending_hash u t) h ks)
  Spares-expiring [] ks = Spares-refl ks
  Spares-expiring (f ∷ fs) ks = record { hashes = λ u' t' h. refl; members = λ m h. refl }

  pub Spares-scored :
      (score : ℕ) (ks : Keyspace) → Spares ks (scored (pending_zset_member u t) score ks)
  Spares-scored score ks = record {
    hashes = λ u' t' h. refl;
    members = λ m other. lookup-insert (pending_zset_member u t) m score ks.zset ∙ rw other refl;
  }

  pub Spares-unscored : (ks : Keyspace) → Spares ks (unscored (pending_zset_member u t) ks)
  Spares-unscored ks = record {
    hashes = λ u' t' h. refl;
    members = λ m other. lookup-erase (pending_zset_member u t) m ks.zset ∙ rw other refl;
  }

  pub data Runs {A : Type 0} (a : A) (ks ks' : Keyspace) (out : Result A × Keyspace) : Type 0 where
    ran : out ≡ (ok a, ks') → Spares ks ks' → Runs a ks ks' out
    broke :
        (e : Exception) (ks'' : Keyspace)
        → out ≡ (thrown e, ks'')
        → Spares ks ks''
        → Runs a ks ks' out

  pub Runs-of_Applies :
      {A : Type 0} (a : A) (ks ks' : Keyspace) (out : Result A × Keyspace)
      → Applies a ks ks' out
      → Spares ks ks'
      → Runs a ks ks' out
  Runs-of_Applies a ks ks' out (Applies.applied e) s = ran e s
  Runs-of_Applies a ks ks' out (Applies.lost x e) s = broke x ks' e s
  Runs-of_Applies a ks ks' out (Applies.failed x e) s = broke x ks e (Spares-refl ks)

  -- One command after another.
  pub Runs-bind :
      {A B : Type 0} (f : A → Async Keyspace B) (a : A) (b : B) (ks ks' ks'' : Keyspace)
      (out : Result A × Keyspace)
      → Runs a ks ks' out
      → Runs b ks' ks'' (f a ks')
      → Runs b ks ks'' (continue f out)
  Runs-bind f a b ks ks' ks'' out (ran e s) r = rw e (after r)
    where
      after : Runs b ks' ks'' (f a ks') → Runs b ks ks'' (f a ks')
      after (ran e' s') = ran e' (Spares-trans ks ks' ks'' s s')
      after (broke x k e' s') = broke x k e' (Spares-trans ks ks' k s s')
  Runs-bind f a b ks ks' ks'' out (broke x k e s) r = rw e (broke x k refl s)

  pub Runs-pure : {A : Type 0} (a : A) (ks : Keyspace) → Runs a ks ks (pure a ks)
  Runs-pure a ks = ran refl (Spares-refl ks)

  -- The commands.
  module _ (redis : Redis) (ks : Keyspace) where
    pub Runs-hset :
        (fields : Fields)
        → Runs tt ks
            (set_fields (pending_hash u t) fields ks)
            (redis.hset (pending_hash u t) fields ks)
    Runs-hset fields =
        Runs-of_Applies tt ks _ _ (redis.hset_lem (pending_hash u t) fields ks)
          (Spares-with_hash _ ks)

    pub Runs-expire :
        (ttl_seconds : ℕ)
        → Runs tt ks
            (expiring (pending_hash u t) (ks.hashes (pending_hash u t)) ks)
            (redis.expire (pending_hash u t) ttl_seconds ks)
    Runs-expire ttl_seconds =
        Runs-of_Applies tt ks _ _ (redis.expire_lem (pending_hash u t) ttl_seconds ks)
          (Spares-expiring (ks.hashes (pending_hash u t)) ks)

    pub Runs-zadd :
        (score : ℕ)
        → Runs tt ks
            (scored (pending_zset_member u t) score ks)
            (redis.zadd score (pending_zset_member u t) ks)
    Runs-zadd score =
        Runs-of_Applies tt ks _ _ (redis.zadd_lem score (pending_zset_member u t) ks)
          (Spares-scored score ks)

    pub Runs-zrem :
        Runs tt ks (unscored (pending_zset_member u t) ks) (redis.zrem (pending_zset_member u t) ks)
    Runs-zrem =
        Runs-of_Applies tt ks _ _ (redis.zrem_lem (pending_zset_member u t) ks) (Spares-unscored ks)
