-- ===== src/Common/Consuming/Batches.antt =====
-- A batch delivers a prefix of its messages and resolves exactly these.
use coupon_nestjs.Prelude.{
  ℕ, zero, suc, ◌+◌, ◌-◌, ◌≡◌, ◌≤◌, ◌<◌, refl, ap, ◌∙◌, inl, inr, String, true, false, Option, List,
  [], ◌∷◌, map, length, take, Bool-cases, arith,
}
use coupon_nestjs.Common.Errors.{Exception}
use coupon_nestjs.Common.Consuming.{KafkaMessage, Session, Batch, acknowledged, resolve, each_batch}
use coupon_nestjs.Effect.{Result, ok, thrown}

module _ {W : Type 0} (deliver : ℕ → Option String → W → W) (session : Session) where
  -- All messages, one after another.
  abbrev pub deliver_all : ℕ → List KafkaMessage → W → W
  deliver_all n [] w = w
  deliver_all n (message ∷ messages) w = deliver_all (suc n) messages (deliver n message.value w)

  -- Why a batch ends behind its first `k` messages, and what it returns.
  pub data Ended (budget n k : ℕ) (messages : List KafkaMessage) (outcome : Result (Unit {0}))
      : Type 0 where
    full : k ≡ budget → outcome ≡ ok tt → Ended budget n k messages outcome
    all : k ≡ length messages → outcome ≡ ok tt → Ended budget n k messages outcome
    stopped : session.stops (n + k) ≡ true → outcome ≡ ok tt → Ended budget n k messages outcome
    -- The commit or the heartbeat after the last of them failed.
    broken :
        (j : ℕ) (e : Exception)
        → k ≡ suc j
        → acknowledged session (n + j) ≡ thrown e
        → outcome ≡ thrown e
        → Ended budget n k messages outcome

  -- The first `k` messages were delivered in their order and their offsets resolved.
  pub record Resolves (budget n : ℕ) (messages : List KafkaMessage) (w : W) (k : ℕ) (out : Batch W)
      : Type 0 where
    pub few : k ≤ budget
    pub resolved : out.resolved ≡ map (λ m. m.offset) (take k messages)
    pub delivered : out.state ≡ deliver_all n (take k messages) w
    pub running : (j : ℕ) → j < k → session.stops (n + j) ≡ false
    pub committed : (j : ℕ) → suc j < k → acknowledged session (n + j) ≡ ok tt
    pub ended : Ended budget n k messages out.outcome

  Ended-suc :
      (budget n k : ℕ) (message : KafkaMessage) (messages : List KafkaMessage)
      (outcome : Result (Unit {0}))
      → Ended budget (suc n) k messages outcome
      → Ended (suc budget) n (suc k) (message ∷ messages) outcome
  Ended-suc budget n k message messages outcome (full h e) = full (ap suc h) e
  Ended-suc budget n k message messages outcome (all h e) = all (ap suc h) e
  Ended-suc budget n k message messages outcome (stopped h e) =
      stopped (ap session.stops (omega arith) ∙ h) e
  Ended-suc budget n k message messages outcome (broken j x last threw e) =
      broken (suc j) x (ap suc last) (ap (acknowledged session) (omega arith) ∙ threw) e

  -- What holds of the first message and of those behind it.
  from_first :
      {A : Type 0} (f : ℕ → A) (a : A) (n k : ℕ)
      → f n ≡ a
      → ((j : ℕ) → j < k → f (suc n + j) ≡ a)
      → (j : ℕ) → j < suc k
      → f (n + j) ≡ a
  from_first f a n k first later zero below = ap f (omega arith) ∙ first
  from_first f a n k first later (suc j) below = ap f (omega arith) ∙ later j (omega arith)

  Resolves-none :
      (budget n : ℕ) (messages : List KafkaMessage) (w : W)
      → Ended budget n 0 messages (ok tt)
      → Resolves budget n messages w 0 (record { outcome = ok tt; resolved = []; state = w })
  Resolves-none budget n messages w why = record {
    few = omega arith;
    resolved = refl;
    delivered = refl;
    running = λ j below. absurd (omega arith);
    committed = λ j below. absurd (omega arith);
    ended = why;
  }

  -- One message more in front, after which the batch goes on or breaks.
  Resolves-suc :
      (budget n : ℕ) (message : KafkaMessage) (messages : List KafkaMessage) (w : W) (k : ℕ)
      (rest : Batch W) (after : Result (Unit {0}))
      → session.stops n ≡ false
      → acknowledged session n ≡ after
      → Resolves budget (suc n) messages (deliver n message.value w) k rest
      → (j : ℕ) × Resolves
          (suc budget)
          n
          (message ∷ messages)
          w
          j
          (resolve message.offset (deliver n message.value w) after rest)
  Resolves-suc budget n message messages w k rest (ok tt) runs went r = (
    suc k,
    record {
      few = omega (arith, r.few);
      resolved = ap (λ offsets. message.offset ∷ offsets) r.resolved;
      delivered = r.delivered;
      running = from_first session.stops false n k runs r.running;
      committed = λ j below.
          from_first (acknowledged session) (ok tt) n (k - 1) went
            (λ i small. r.committed i (omega arith)) j (omega arith);
      ended = Ended-suc budget n k message messages rest.outcome r.ended;
    },
  )
  Resolves-suc budget n message messages w k rest (thrown e) runs threw r = (
    1,
    record {
      few = omega arith;
      resolved = refl;
      delivered = refl;
      running = from_first session.stops false n 0 runs (λ j below. absurd (omega arith));
      committed = λ j below. absurd (omega arith);
      ended = broken 0 e refl (ap (acknowledged session) (omega arith) ∙ threw) refl;
    },
  )

  -- A batch resolves the offsets of its first messages, and these are the ones that it delivered, in
  -- their order. It takes no more than its budget, and fewer only at the end of the batch, when the
  -- consumer has stopped, or when the commit or the heartbeat after a message failed: then it throws
  -- that failure, and otherwise it returns. Before that it had not stopped and none of these failed.
  pub each_batch-Resolves :
      (budget n : ℕ) (messages : List KafkaMessage) (w : W)
      → (k : ℕ) × Resolves budget n messages w k (each_batch deliver session budget n messages w)
  unfolding each_batch
  each_batch-Resolves budget n [] w = (0, Resolves-none budget n [] w (all refl refl))
  each_batch-Resolves zero n (message ∷ messages) w =
      (0, Resolves-none 0 n (message ∷ messages) w (full refl refl))
  each_batch-Resolves (suc budget) n (message ∷ messages) w = elim (Bool-cases (session.stops n)) [
    | inl stops ↦ rw stops (
      0,
      Resolves-none (suc budget) n (message ∷ messages) w
          (stopped (ap session.stops (omega arith) ∙ stops) refl),
    )
    | inr runs ↦
        let (k, r) = each_batch-Resolves budget (suc n) messages (deliver n message.value w) in
        rw runs (Resolves-suc budget n message messages w k _ (acknowledged session n) runs refl r)
  ]
