-- ===== src/Common/Consuming.antt =====
-- What the two Kafka consumers do alike: coupon-issue-request.consumer.ts of server-c and
-- coupon-issue-result.consumer.ts of server-b, in apps/*/src/infrastructure/kafka. They start with
-- retries, and process a batch of messages one after another.
pub mod Batches
pub mod Backoff
use coupon_nestjs.Prelude.{
  ℕ, zero, suc, ◌*◌, String, Bool, Option, none, some, List, [], ◌∷◌, ltb, if◌then◌else◌,
}
use coupon_nestjs.Effect.{Result, ok, thrown}

pub record KafkaMessage : Type 0 where
  pub value : Option String
  pub offset : String

-- What kafkajs does at the n-th message: whether the consumer has stopped or the batch is stale when it
-- is reached, and what `commitOffsetsIfNecessary` and `heartbeat` give after it.
pub record Session : Type 0 where
  pub stops : ℕ → Bool
  pub commits : ℕ → Result (Unit {0})
  pub heartbeats : ℕ → Result (Unit {0})

-- The heartbeat is sent if the commit went well.
abbrev both : Result (Unit {0}) → Result (Unit {0}) → Result (Unit {0})
both (thrown e) heartbeat = thrown e
both (ok _) heartbeat = heartbeat

abbrev pub acknowledged : Session → ℕ → Result (Unit {0})
acknowledged session n = both (session.commits n) (session.heartbeats n)

-- What becomes of a batch: whether it threw, the offsets that were resolved, in their order, and the
-- state.
pub record Batch (W : Type 0) : Type 0 where
  pub outcome : Result (Unit {0})
  pub resolved : List String
  pub state : W

abbrev pub resolve : {W : Type 0} → String → W → Result (Unit {0}) → Batch W → Batch W
resolve offset w (ok _) rest = record rest { resolved = offset ∷ rest.resolved }
resolve offset w (thrown e) rest = record { outcome = thrown e; resolved = offset ∷ []; state = w }

abbrev pub nothing_more : {W : Type 0} → W → Batch W
nothing_more w = record { outcome = ok tt; resolved = []; state = w }

-- `deliver n` is the delivery of the n-th message.
module _ {W : Type 0} (deliver : ℕ → Option String → W → W) (session : Session) where
  -- `eachBatch`: `budget` messages may still be processed.
  unfoldable pub each_batch : ℕ → ℕ → List KafkaMessage → W → Batch W
  each_batch budget n [] w = nothing_more w
  each_batch zero n (message ∷ messages) w = nothing_more w
  each_batch (suc budget) n (message ∷ messages) w =
      let rest = each_batch budget (suc n) messages (deliver n message.value w) in
      if session.stops n
      then nothing_more w
      else resolve message.offset (deliver n message.value w) (acknowledged session n) rest

pub data Started : Type 0 where
  consuming stopped : Started

abbrev pub max_backoff_ms : ℕ
max_backoff_ms = 30000

-- `Math.min(backoffMs * 2, MAX_BACKOFF_MS)`
abbrev pub next_backoff : ℕ → ℕ
next_backoff backoff_ms =
    if ltb (backoff_ms * 2) max_backoff_ms then backoff_ms * 2 else max_backoff_ms

-- Whether the k-th attempt to start succeeds, and whether the consumer has been stopped before it, or
-- after it failed.
pub record Starts : Type 0 where
  pub succeeds : ℕ → Bool
  pub stopped_before : ℕ → Bool
  pub stopped_after : ℕ → Bool

abbrev pub slept : ℕ → Option (Started × List ℕ) → Option (Started × List ℕ)
slept backoff_ms none = none
slept backoff_ms (some (outcome, sleeps)) = some (outcome, backoff_ms ∷ sleeps)

-- `startWithRetry` from the k-th attempt on: how the loop ends and how long it slept in between, or
-- none if the fuel is used up before.
unfoldable pub start_with_retry : Starts → ℕ → ℕ → ℕ → Option (Started × List ℕ)
start_with_retry s zero k backoff_ms = none
start_with_retry s (suc fuel) k backoff_ms =
    let later = slept backoff_ms (start_with_retry s fuel (suc k) (next_backoff backoff_ms)) in
    if s.stopped_before k
    then some (stopped, [])
    else if s.succeeds k
    then some (consuming, [])
    else if s.stopped_after k
    then some (stopped, [])
    else later
