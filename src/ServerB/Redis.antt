-- ===== src/ServerB/Redis.antt =====
-- The Redis of server-b, which is not part of the repository: the commands on hashes and on the sorted
-- set that redis-pending-issue.store.ts issues, as an interface, with what Redis documents of each.
use mathlib.Core.List.{Memᴰ}
use coupon_nestjs.Prelude.{
  ℕ, ◌+◌, ◌≡◌, ◌≤◌, String, Bool, Option, none, some, is_some, List, [], ◌∷◌, All, length, leb,
  count_if, lookup, insert, insert_all, erase, ◌==◌, string_eq, if◌then◌else◌,
}
use coupon_nestjs.Common.Errors.{Exception}
use coupon_nestjs.Common.Text.{show_nat}
use coupon_nestjs.Effect.{Result, ok, thrown, Async}

-- The fields of a hash: a hash without fields is not there.
abbrev pub Fields : Type 0
Fields = List (String × String)

-- The hashes by their keys, which of them expire, and the members of the sorted set with their scores.
pub record Keyspace : Type 0 where
  pub hashes : String → Fields
  pub expires : String → Bool
  pub zset : List (String × ℕ)

abbrev pub with_hash : String → Fields → Keyspace → Keyspace
with_hash key h ks = record ks { hashes = λ k. if k == key then h else ks.hashes k }

abbrev pub set_fields : String → Fields → Keyspace → Keyspace
set_fields key fields ks = with_hash key (insert_all fields (ks.hashes key)) ks

abbrev pub if_unset : Option String → Fields → Fields → Fields
if_unset none fields h = fields
if_unset (some v) fields h = h

-- Only a hash that is there gets a time to live.
abbrev pub expiring : String → Fields → Keyspace → Keyspace
expiring key [] ks = ks
expiring key (f ∷ fs) ks = record ks { expires = λ k. if k == key then Bool.true else ks.expires k }

abbrev pub scored : String → ℕ → Keyspace → Keyspace
scored member score ks = record ks { zset = insert member score ks.zset }

abbrev pub unscored : String → Keyspace → Keyspace
unscored member ks = record ks { zset = erase member ks.zset }

abbrev pub is_due : ℕ → String × ℕ → Bool
is_due cutoff (member, score) = leb score cutoff

-- A command answers, or fails, with or without effect.
pub data Applies {A : Type 0} (a : A) (before after : Keyspace) (out : Result A × Keyspace)
    : Type 0 where
  applied : out ≡ (ok a, after) → Applies a before after out
  lost : (e : Exception) → out ≡ (thrown e, after) → Applies a before after out
  failed : (e : Exception) → out ≡ (thrown e, before) → Applies a before after out

-- The members with a score from 0 to `cutoff`, no more than `limit`, and all if there are no more.
pub record Ranges (cutoff limit : ℕ) (ks : Keyspace) (members : List String) : Type 0 where
  pub due : All (λ m. (score : ℕ) × (lookup m ks.zset ≡ some score) × (score ≤ cutoff)) members
  pub limited : length members ≤ limit
  pub complete :
      count_if (is_due cutoff) ks.zset ≤ limit
      → (m : String) (score : ℕ) → lookup m ks.zset ≡ some score
      → score ≤ cutoff
      → Memᴰ m members

pub data Reads {A : Type 0} (fits : A → Type 0) (ks : Keyspace) (out : Result A × Keyspace)
    : Type 0 where
  read : (a : A) → fits a → out ≡ (ok a, ks) → Reads fits ks out
  failed : (e : Exception) → out ≡ (thrown e, ks) → Reads fits ks out

pub record Redis : Type 0 where
  -- 1 if the field was set, and 0 if it was there already.
  pub hsetnx : String → String → String → Async Keyspace ℕ
  pub hsetnx_lem :
      (key field value : String) (ks : Keyspace)
      → let old = lookup field (ks.hashes key) in
        Applies
          (if is_some old then 0 else 1)
          ks
          (with_hash key (if_unset old (insert field value (ks.hashes key)) (ks.hashes key)) ks)
          (hsetnx key field value ks)
  -- The number of fields that are new, which the program does not read.
  pub hset : String → Fields → Async Keyspace (Unit {0})
  pub hset_lem :
      (key : String) (fields : Fields) (ks : Keyspace)
      → Applies tt ks (set_fields key fields ks) (hset key fields ks)
  -- A field that holds the text of a number; any other text is refused.
  pub hincrby : String → String → ℕ → Async Keyspace ℕ
  pub hincrby_lem :
      (key field : String) (n by : ℕ) (ks : Keyspace)
      → lookup field (ks.hashes key) ≡ some (show_nat n)
      → Applies
          (n + by)
          ks
          (set_fields key ((field, show_nat (n + by)) ∷ []) ks)
          (hincrby key field by ks)
  pub hgetall : String → Async Keyspace Fields
  pub hgetall_lem :
      (key : String) (ks : Keyspace) → Reads (λ h. h ≡ ks.hashes key) ks (hgetall key ks)
  pub expire : String → ℕ → Async Keyspace (Unit {0})
  pub expire_lem :
      (key : String) (ttl_seconds : ℕ) (ks : Keyspace)
      → Applies tt ks (expiring key (ks.hashes key) ks) (expire key ttl_seconds ks)
  pub zadd : ℕ → String → Async Keyspace (Unit {0})
  pub zadd_lem :
      (score : ℕ) (member : String) (ks : Keyspace)
      → Applies tt ks (scored member score ks) (zadd score member ks)
  pub zrem : String → Async Keyspace (Unit {0})
  pub zrem_lem :
      (member : String) (ks : Keyspace) → Applies tt ks (unscored member ks) (zrem member ks)
  pub zrangebyscore : ℕ → ℕ → Async Keyspace (List String)
  pub zrangebyscore_lem :
      (cutoff limit : ℕ) (ks : Keyspace)
      → Reads (Ranges cutoff limit ks) ks (zrangebyscore cutoff limit ks)
