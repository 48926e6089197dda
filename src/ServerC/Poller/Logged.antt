-- ===== src/ServerC/Poller/Logged.antt =====
-- What is marked as published has been published.
use mathlib.Core.List.{Memᴰ}
use mathlib.Core.List.Memᴰ
use coupon_nestjs.Prelude.{
  ℕ, ℤ, ◌≡◌, refl, sym, ◌∙◌, List, [], ◌∷◌, ◌++◌, Bool, false, inl, inr, Distinct, int_eq,
}
use coupon_nestjs.Common.Statuses.{is_pending}
use coupon_nestjs.Common.Payloads.{CouponIssueResultPayload}
use coupon_nestjs.Common.Broker.{Broker, Message, Sends}
use coupon_nestjs.Effect.{Result, ok}
use coupon_nestjs.ServerC.Schema.{OutboxRow}
use coupon_nestjs.ServerC.Engine.{Engine, has_outbox_id}
use coupon_nestjs.ServerC.World.{World, ResultLog}
use coupon_nestjs.ServerC.Poller.{message_of, published_id, publish_all}

abbrev pub same_outbox_id : OutboxRow → OutboxRow → Bool
same_outbox_id r = has_outbox_id r.outbox_event_id

-- No identifier stands twice, and the message of a row that is no longer PENDING is in the topic.
pub record IsLogged (outbox : List OutboxRow) (log : ResultLog) : Type 0 where
  pub ids : Distinct same_outbox_id outbox
  pub logged :
      (r : OutboxRow) → Memᴰ r outbox → is_pending r.status ≡ false → Memᴰ (message_of r) log

-- What publishing some rows leaves: the identifiers given are of rows whose messages are in the topic.
pub record Publishes (events : List OutboxRow) (w : World) (out : Result (List ℤ) × World)
    : Type 0 where
  pub ids : List ℤ
  pub after : World
  pub returns : out ≡ (ok ids, after)
  pub db_same : after.db ≡ w.db
  pub cache_same : after.cache ≡ w.cache
  pub running_same : after.running ≡ w.running
  pub grows : (m : Message CouponIssueResultPayload) → Memᴰ m w.log → Memᴰ m after.log
  pub sent :
      (id : ℤ)
      → Memᴰ id ids
      → (r : OutboxRow) × Memᴰ r events × (r.outbox_event_id ≡ id) × Memᴰ (message_of r) after.log

in_cons_of_singleton : {a b : OutboxRow} {xs : List OutboxRow} → Memᴰ b (a ∷ []) → Memᴰ b (a ∷ xs)
in_cons_of_singleton (Memᴰ.head e) = Memᴰ.head e
in_cons_of_singleton (Memᴰ.tail m) = elim m [ ]

singleton : {a b : ℤ} → Memᴰ b (a ∷ []) → a ≡ b
singleton (Memᴰ.head e) = sym e
singleton (Memᴰ.tail m) = elim m [ ]

module _ (em : Engine) (broker : Broker CouponIssueResultPayload) (batch_size now : ℕ) where
  published_id_lem :
      (event : OutboxRow) (w : World)
      → Publishes (event ∷ []) w (published_id em broker batch_size now event w)
  published_id_lem event w = elim (broker.send_lem (message_of event) w.log) [
    | Sends.acknowledged e ↦ rw e (record {
      ids = event.outbox_event_id ∷ [];
      after = record w { log = w.log ++ message_of event ∷ [] };
      returns = refl;
      db_same = refl;
      cache_same = refl;
      running_same = refl;
      grows = λ m here. Memᴰ.append_left _ here;
      sent = λ id m. (event, Memᴰ.head refl, singleton m, Memᴰ.append_right w.log (Memᴰ.head refl));
    })
    | Sends.unacknowledged x e ↦ rw e (record {
      ids = [];
      after = record w { log = w.log ++ message_of event ∷ [] };
      returns = refl;
      db_same = refl;
      cache_same = refl;
      running_same = refl;
      grows = λ m here. Memᴰ.append_left _ here;
      sent = λ id m. elim m [ ];
    })
    | Sends.failed x e ↦ rw e (record {
      ids = [];
      after = w;
      returns = refl;
      db_same = refl;
      cache_same = refl;
      running_same = refl;
      grows = λ m here. here;
      sent = λ id m. elim m [ ];
    })
  ]

  pub publish_all_lem :
      (events : List OutboxRow) (w : World)
      → Publishes events w (publish_all em broker batch_size now events w)
  unfolding publish_all
  publish_all_lem [] w = record {
    ids = [];
    after = w;
    returns = refl;
    db_same = refl;
    cache_same = refl;
    running_same = refl;
    grows = λ m here. here;
    sent = λ id m. elim m [ ];
  }
  publish_all_lem (event ∷ events) w =
      let first = published_id_lem event w in
      let others = publish_all_lem events first.after in
      record {
        ids = first.ids ++ others.ids;
        after = others.after;
        returns = rw (first.returns, others.returns);
        db_same = others.db_same ∙ first.db_same;
        cache_same = others.cache_same ∙ first.cache_same;
        running_same = others.running_same ∙ first.running_same;
        grows = λ m here. others.grows m (first.grows m here);
        sent = λ id m. elim (Memᴰ.append_cases first.ids m) [
          | inl here ↦
              let (r, at, same, in_log) = first.sent id here in
              (r, in_cons_of_singleton at, same, others.grows _ in_log)
          | inr there ↦
              let (r, at, same, in_log) = others.sent id there in (r, Memᴰ.tail at, same, in_log)
        ];
      }
