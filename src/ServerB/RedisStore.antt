-- ===== src/ServerB/RedisStore.antt =====
-- apps/server-b/src/infrastructure/redis/redis-pending-issue.store.ts: the pending store on the hashes
-- and the sorted set of Redis. Epoch milliseconds are natural numbers; a JavaScript number that comes
-- of a text is an integer, or whatever `Number` makes of a text that is no integer.
pub mod Runs
pub mod Represents
pub mod Hashes
pub mod Endings
pub mod Updates
pub mod Saves
pub mod Search
pub mod Batch
pub mod Stranded
pub mod Port
use coupon_nestjs.Prelude.{
  ℕ, ℤ, pos, String, Bool, true, false, Option, none, some, List, [], ◌∷◌, ◌++◌, lookup, ◌==◌,
  nat_eq, if◌then◌else◌,
}
use coupon_nestjs.Common.Text.{show_nat, show_int}
use coupon_nestjs.Common.Requests.{read_long, number_of}
use coupon_nestjs.Common.Statuses.{IssuePendingStatus}
use coupon_nestjs.Effect.{Async, pure, ◌>>=◌, ◌>>◌}
use coupon_nestjs.ServerB.Keys.{pending_hash, pending_zset_member, split_colons}
use coupon_nestjs.ServerB.Redis.{Fields, Keyspace, Redis}

abbrev pub status_text : IssuePendingStatus → String
status_text IssuePendingStatus.pending = "PENDING"
status_text IssuePendingStatus.success = "SUCCESS"
status_text IssuePendingStatus.sold_out = "SOLD_OUT"
status_text IssuePendingStatus.failed = "FAILED"

-- `Number(text)`
pub data JsNumber : Type 0 where
  integer : ℤ → JsNumber
  number_of_text : String → JsNumber

-- What a search gives of an application (`PendingIssue`); the status is not looked at.
pub record FoundIssue : Type 0 where
  pub request_id : String
  pub user_id : ℤ
  pub event_id : JsNumber
  pub coupon_type_id : ℤ
  pub status : String
  pub created_at : JsNumber
  pub publish_attempts : ℤ

abbrev pub first_fields : String → ℤ → ℤ → ℤ → ℕ → Fields
first_fields request_id user_id event_id coupon_type_id created_at =
    ("requestId", request_id)
    ∷ ("userId", show_int user_id)
    ∷ ("eventId", show_int event_id)
    ∷ ("couponTypeId", show_int coupon_type_id)
    ∷ ("status", status_text IssuePendingStatus.pending)
    ∷ ("createdAt", show_nat created_at)
    ∷ ("publishAttempts", "1")
    ∷ ("lastPublishedAt", show_nat created_at)
    ∷ []

module _ (redis : Redis) (ttl_seconds : ℕ) where
  -- What follows once the first field is claimed.
  unfoldable pub fill_pending : String → ℤ → ℤ → ℤ → ℕ → Async Keyspace Bool
  fill_pending request_id user_id event_id coupon_type_id created_at =
      let hash_key = pending_hash user_id coupon_type_id in
      redis.hset hash_key (first_fields request_id user_id event_id coupon_type_id created_at)
      >> redis.expire hash_key ttl_seconds
      >> redis.zadd created_at (pending_zset_member user_id coupon_type_id)
      >> pure true

  unfoldable pub save_pending_if_absent : String → ℤ → ℤ → ℤ → ℕ → Async Keyspace Bool
  save_pending_if_absent request_id user_id event_id coupon_type_id created_at = do
    first_field ← redis.hsetnx (pending_hash user_id coupon_type_id) "userId" (show_int user_id)
    if first_field == 0
        then pure false
        else fill_pending request_id user_id event_id coupon_type_id created_at

  unfoldable pub record_republish : ℤ → ℤ → ℕ → Async Keyspace ℕ
  record_republish user_id coupon_type_id published_at =
      let hash_key = pending_hash user_id coupon_type_id in
      redis.hincrby hash_key "publishAttempts" 1 >>= λ updated_attempts.
      redis.hset hash_key (("lastPublishedAt", show_nat published_at) ∷ [])
      >> redis.expire hash_key ttl_seconds
      >> redis.zadd published_at (pending_zset_member user_id coupon_type_id)
      >> pure updated_attempts

  abbrev pub set_code : String → Option String → Async Keyspace (Unit {0})
  set_code hash_key none = pure tt
  set_code hash_key (some code) = redis.hset hash_key (("code", code) ∷ [])

  unfoldable pub mark_result :
      ℤ → ℤ → IssuePendingStatus → Option String → Async Keyspace (Unit {0})
  mark_result user_id coupon_type_id status code =
      let hash_key = pending_hash user_id coupon_type_id in
      redis.hset hash_key (("status", status_text status) ∷ [])
      >> set_code hash_key code
      >> redis.expire hash_key ttl_seconds
      >> redis.zrem (pending_zset_member user_id coupon_type_id)

module _ (rounded : ℤ → ℤ) where
  -- `Number` of a text.
  abbrev pub to_number : Option ℤ → String → JsNumber
  to_number none text = number_of_text text
  to_number (some n) text = integer (number_of rounded n)

  abbrev rounded_to : Option ℤ → Option ℤ
  rounded_to none = none
  rounded_to (some n) = some (number_of rounded n)

  unfoldable pub parse_long_strict : String → Option ℤ
  parse_long_strict value = rounded_to (read_long value)

  -- A hash without the field stands for one attempt; a value that is no integer is skipped.
  abbrev pub attempts_of : Option String → Option ℤ
  attempts_of none = some (pos 1)
  attempts_of (some text) = parse_long_strict text

  abbrev pub issue_of_fields :
      ℤ
      → ℤ
      → Option String
      → Option String
      → Option String
      → Option String
      → Option ℤ
      → List FoundIssue
  issue_of_fields user_id coupon_type_id (some request_id) (some event_id) (some status)
        (some created_at) (some attempts) =
      record {
        request_id = request_id;
        user_id = user_id;
        event_id = to_number (read_long event_id) event_id;
        coupon_type_id = coupon_type_id;
        status = status;
        created_at = to_number (read_long created_at) created_at;
        publish_attempts = attempts;
      }
      ∷ []
  issue_of_fields _ _ _ _ _ _ _ = []

  -- An entry with a missing field, or with a malformed number of attempts, is skipped.
  unfoldable pub issue_of_entries : ℤ → ℤ → Fields → List FoundIssue
  issue_of_entries user_id coupon_type_id entries =
      issue_of_fields user_id coupon_type_id (lookup "requestId" entries) (lookup "eventId" entries)
        (lookup "status" entries) (lookup "createdAt" entries)
        (attempts_of (lookup "publishAttempts" entries))

  module _ (redis : Redis) where
    -- A member without a hash is an orphan.
    abbrev pub unless_orphan : String → ℤ → ℤ → Fields → Async Keyspace (List FoundIssue)
    unless_orphan member user_id coupon_type_id [] = redis.zrem member >> pure []
    unless_orphan member user_id coupon_type_id (f ∷ fs) =
        pure (issue_of_entries user_id coupon_type_id (f ∷ fs))

    abbrev pub find_of_pair : String → Option ℤ → Option ℤ → Async Keyspace (List FoundIssue)
    find_of_pair member (some user_id) (some coupon_type_id) =
        redis.hgetall (pending_hash user_id coupon_type_id)
        >>= unless_orphan member user_id coupon_type_id
    find_of_pair member _ _ = pure []

    abbrev pub find_of_parts : String → List String → Async Keyspace (List FoundIssue)
    find_of_parts member (user ∷ coupon_type ∷ []) =
        find_of_pair member (parse_long_strict user) (parse_long_strict coupon_type)
    find_of_parts member _ = pure []

    -- The loop over the members.
    unfoldable pub find_of_members : List String → Async Keyspace (List FoundIssue)
    find_of_members [] = pure []
    find_of_members (member ∷ members) = do
      here ← find_of_parts member (split_colons member)
      rest ← find_of_members members
      pure (here ++ rest)

    unfoldable pub find_pending_older_than : ℕ → ℕ → Async Keyspace (List FoundIssue)
    find_pending_older_than cutoff batch_size =
        redis.zrangebyscore cutoff batch_size >>= find_of_members
