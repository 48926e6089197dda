-- ===== src/ServerB/RedisStore/Stranded.antt =====
-- What becomes of an application whose first field was set when the next command failed.
use coupon_nestjs.Prelude.{
  ℕ, ℤ, ◌≡◌, ◌≢◌, refl, String, Bool, true, false, none, List, [], ◌∷◌, All, lookup, string_eq,
}
use coupon_nestjs.Common.Errors.{Exception}
use coupon_nestjs.Common.Text.{show_int}
use coupon_nestjs.Effect.{Result, ok, thrown}
use coupon_nestjs.ServerB.Keys.{pending_hash, pending_zset_member}
use coupon_nestjs.ServerB.Redis.{Fields, Keyspace, Redis, Applies, with_hash}
use coupon_nestjs.ServerB.RedisStore.{first_fields, fill_pending, save_pending_if_absent}
use coupon_nestjs.ServerB.RedisStore.Hashes.{hash_itself}

-- Another request of the same user for the same coupon type.
pub record Attempt : Type 0 where
  pub request_id : String
  pub event_id : ℤ
  pub created_at : ℕ

module _ (redis : Redis) (ttl_seconds : ℕ) (u t : ℤ) where
  abbrev pub claimed_field : Fields
  claimed_field = ("userId", show_int u) ∷ []

  -- The hash has its first field only, never expires, and the sorted set does not know it.
  pub record IsStranded (ks : Keyspace) : Type 0 where
    pub claimed : ks.hashes (pending_hash u t) ≡ claimed_field
    pub lasting : ks.expires (pending_hash u t) ≡ false
    pub unqueued : lookup (pending_zset_member u t) ks.zset ≡ none

  -- The answers to some attempts, one after another, and what they leave.
  abbrev pub attempt_all : List Attempt → Keyspace → List (Result Bool) × Keyspace
  attempt_all [] ks = ([], ks)
  attempt_all (a ∷ attempts) ks =
      let out =
        save_pending_if_absent redis ttl_seconds a.request_id u a.event_id t a.created_at ks in
      let rest = attempt_all attempts out.1 in (out.0 ∷ rest.0, rest.1)

  -- An attempt is not accepted, and nothing changes.
  data Refuses (out : Result Bool × Keyspace) : Type 0 where
    refused : out.0 ≢ ok true → IsStranded out.1 → Refuses out

  IsStranded-with_hash :
      (ks : Keyspace) → IsStranded ks → IsStranded (with_hash (pending_hash u t) claimed_field ks)
  IsStranded-with_hash ks s = record {
    claimed = hash_itself (pending_hash u t) claimed_field ks;
    lasting = s.lasting;
    unqueued = s.unqueued;
  }

  attempt-Refuses :
      (a : Attempt) (ks : Keyspace)
      → IsStranded ks
      → Refuses
          (save_pending_if_absent redis ttl_seconds a.request_id u a.event_id t a.created_at ks)
  unfolding save_pending_if_absent
  attempt-Refuses a ks s =
      elim (rw s.claimed at (redis.hsetnx_lem (pending_hash u t) "userId" (show_int u) ks)) [
        | Applies.applied e ↦ rw e (refused (λ h. cc h) (IsStranded-with_hash ks s))
        | Applies.lost x e ↦ rw e (refused (λ h. cc h) (IsStranded-with_hash ks s))
        | Applies.failed x e ↦ rw e (refused (λ h. cc h) s)
      ]

  attempt_all-IsStranded :
      (attempts : List Attempt) (ks : Keyspace)
      → IsStranded ks
      → All (λ r. r ≢ ok true) (attempt_all attempts ks).0 × IsStranded (attempt_all attempts ks).1
  attempt_all-IsStranded [] ks s = (tt, s)
  attempt_all-IsStranded (a ∷ attempts) ks s = elim (attempt-Refuses a ks s) [
    | refused denied stranded ↦
        let rest = attempt_all-IsStranded attempts _ stranded in ((denied, rest.0), rest.1)
  ]

  -- When the command that fills the hash of a first application fails without effect, the application
  -- is stranded: the call throws, no later attempt of that user for that coupon type is ever accepted,
  -- and the hash stays as it is, without a time to live and without a member that a search would find.
  pub stranded_lem :
      (request_id : String) (e : ℤ) (created_at : ℕ) (x : Exception) (ks : Keyspace)
      (attempts : List Attempt)
      → lookup (pending_zset_member u t) ks.zset ≡ none
      → ks.expires (pending_hash u t) ≡ false
      → let claimed = with_hash (pending_hash u t) claimed_field ks in
        redis.hsetnx (pending_hash u t) "userId" (show_int u) ks ≡ (ok 1, claimed)
        → redis.hset (pending_hash u t) (first_fields request_id u e t created_at) claimed
          ≡ (thrown x, claimed)
        → let out = save_pending_if_absent redis ttl_seconds request_id u e t created_at ks in
          (out.0 ≡ thrown x)
          × All (λ r. r ≢ ok true) (attempt_all attempts out.1).0
          × IsStranded (attempt_all attempts out.1).1
  unfolding save_pending_if_absent fill_pending
  stranded_lem request_id e created_at x ks attempts unqueued lasting claims fails =
      let ks1 = with_hash (pending_hash u t) claimed_field ks in
      let s : IsStranded ks1 = record {
        claimed = hash_itself (pending_hash u t) claimed_field ks;
        lasting = lasting;
        unqueued = unqueued;
      } in
      let later = attempt_all-IsStranded attempts ks1 s in
      rw (claims, fails) (refl, later.0, later.1)
