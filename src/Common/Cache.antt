-- ===== src/Common/Cache.antt =====
-- The Redis that the servers share, which is not part of the repository: the string commands that the
-- program issues, as an interface. A cache is what a GET of each key would answer.
use coupon_nestjs.Prelude.{ℕ, ◌≡◌, String, Option, some, is_some, ◌==◌, string_eq, if◌then◌else◌}
use coupon_nestjs.Common.Errors.{Exception}
use coupon_nestjs.Effect.{Result, ok, thrown, Async}

abbrev pub Cache : Type 0
Cache = String → Option String

abbrev pub stored : String → String → Cache → Cache
stored key value cache k = if key == k then some value else cache k

-- A command may fail. A SET that failed may have been carried out: its answer was lost.
pub data Sets (key value : String) (cache : Cache) (out : Result (Unit {0}) × Cache) : Type 0 where
  set_ok : out ≡ (ok tt, stored key value cache) → Sets key value cache out
  lost : (e : Exception) → out ≡ (thrown e, stored key value cache) → Sets key value cache out
  failed : (e : Exception) → out ≡ (thrown e, cache) → Sets key value cache out

pub data Answers {A : Type 0} (a : A) (cache : Cache) (out : Result A × Cache) : Type 0 where
  answered : out ≡ (ok a, cache) → Answers a cache out
  failed : (e : Exception) → out ≡ (thrown e, cache) → Answers a cache out

pub record Redis : Type 0 where
  -- SET key value EX ttl
  pub set : String → String → ℕ → Async Cache (Unit {0})
  pub set_lem :
      (key value : String) (ttl : ℕ) (cache : Cache)
      → Sets key value cache (set key value ttl cache)
  pub get : String → Async Cache (Option String)
  pub get_lem : (key : String) (cache : Cache) → Answers (cache key) cache (get key cache)
  -- EXISTS key, a number
  pub exists : String → Async Cache ℕ
  pub exists_lem :
      (key : String) (cache : Cache)
      → Answers (if is_some (cache key) then 1 else 0) cache (exists key cache)
