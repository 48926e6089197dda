-- ===== src/ServerC/Poller/Cycle.antt =====
-- A whole cycle of the poller.
use mathlib.Core.List.{Memᴰ}
use mathlib.Core.List.Memᴰ
use coupon_nestjs.Prelude.{
  ℕ, ℤ, ◌≡◌, refl, sym, ap, ◌∙◌, List, [], ◌∷◌, map, true, ◌⊎◌, inl, inr, any, All, Distinct-map,
  eq_of_Distinct, Mem_of_any, Bool-cases, ◌==◌, int_eq, int_beq_iff, int_beq_comm,
}
use coupon_nestjs.Common.Statuses.{is_pending}
use coupon_nestjs.Common.Payloads.{CouponIssueResultPayload}
use coupon_nestjs.Common.Broker.{Broker, Message}
use coupon_nestjs.Effect.{Result, ok}
use coupon_nestjs.ServerC.Schema.{OutboxRow, Db}
use coupon_nestjs.ServerC.Engine.{Engine, Reads, Writes, set_published}
use coupon_nestjs.ServerC.Repositories.{find_pending, mark_published}
use coupon_nestjs.ServerC.World.{World, ResultLog, on_db}
use coupon_nestjs.ServerC.Poller.{message_of, publish_pending, poll}
use coupon_nestjs.ServerC.Poller.Logged.{same_outbox_id, IsLogged, publish_all_lem}

Mem_of_All : {A : Type 0} (P : A → Type 0) (xs : List A) {a : A} → All P xs → Memᴰ a xs → P a
Mem_of_All P [] h m = elim m [ ]
Mem_of_All P (x ∷ xs) h (Memᴰ.head e) = rw e h.0
Mem_of_All P (x ∷ xs) h (Memᴰ.tail m) = Mem_of_All P xs h.1 m

abbrev pub marked : List ℤ → ℕ → Db → Db
marked ids now db = record db { outbox = map (set_published ids now) db.outbox }

message-set_published :
    (ids : List ℤ) (now : ℕ) (r : OutboxRow) → message_of (set_published ids now r) ≡ message_of r
message-set_published ids now r = elim (Bool-cases (any (λ id. r.outbox_event_id == id) ids)) [
  | inl listed ↦ rw listed
  | inr other ↦ rw other
]

id-set_published :
    (ids : List ℤ) (now : ℕ) (r : OutboxRow)
    → (set_published ids now r).outbox_event_id ≡ r.outbox_event_id
id-set_published ids now r = elim (Bool-cases (any (λ id. r.outbox_event_id == id) ids)) [
  | inl listed ↦ rw listed
  | inr other ↦ rw other
]

-- Rows marked by identifiers whose messages are in the topic.
mark-IsLogged :
    (ids : List ℤ) (now : ℕ) (outbox : List OutboxRow) (log : ResultLog)
    → IsLogged outbox log
    → ((id : ℤ)
        → Memᴰ id ids
        → (r : OutboxRow) × Memᴰ r outbox × (r.outbox_event_id ≡ id) × Memᴰ (message_of r) log)
    → IsLogged (map (set_published ids now) outbox) log
mark-IsLogged ids now outbox log h sent = record {
  ids =
      Distinct-map same_outbox_id (set_published ids now) outbox
        (λ x y. rw (id-set_published ids now x, id-set_published ids now y)) h.ids;
  logged = λ r' m done.
      let (r, at, e) = Memᴰ.of_map (set_published ids now) outbox m in
      elim (Bool-cases (any (λ id. r.outbox_event_id == id) ids)) [
        | inl listed ↦
            let (id, id_in, same) = Mem_of_any (λ id. r.outbox_event_id == id) ids listed in
            let (x, x_in, x_id, in_log) = sent id id_in in
            let same_id : r.outbox_event_id ≡ id = (int_beq_iff _ _).0 same in
            let one =
              eq_of_Distinct same_outbox_id outbox
                (λ a b. int_beq_comm b.outbox_event_id a.outbox_event_id) h.ids x_in at
                ((int_beq_iff _ _).1 (same_id ∙ sym x_id)) in
            rw (← e, message-set_published ids now r, ← one) in_log
        | inr other ↦
            let same : set_published ids now r ≡ r = rw other in
            rw (← e, same) (h.logged r at (ap (λ x. is_pending x.status) (sym same ∙ e) ∙ done))
      ];
}

-- What a cycle leaves: it returns, it changes nothing but the marks of outbox rows, and a row that is
-- no longer PENDING has its message in the topic.
pub record Polled (now : ℕ) (w : World) (out : Result (Unit {0}) × World) : Type 0 where
  pub returns : out.0 ≡ ok tt
  pub db_after : (out.1.db ≡ w.db) ⊎ ((ids : List ℤ) × (out.1.db ≡ marked ids now w.db))
  pub cache_same : out.1.cache ≡ w.cache
  pub running_same : out.1.running ≡ w.running
  pub logged : IsLogged w.db.outbox w.log → IsLogged out.1.db.outbox out.1.log

-- The same of what `poll` wraps.
record Cycled (now : ℕ) (w : World) (out : Result (Unit {0}) × World) : Type 0 where
  db_after : (out.1.db ≡ w.db) ⊎ ((ids : List ℤ) × (out.1.db ≡ marked ids now w.db))
  cache_same : out.1.cache ≡ w.cache
  logged : IsLogged w.db.outbox w.log → IsLogged out.1.db.outbox out.1.log

grow-IsLogged :
    (outbox : List OutboxRow) (log log' : ResultLog)
    → ((m : Message CouponIssueResultPayload) → Memᴰ m log → Memᴰ m log')
    → IsLogged outbox log
    → IsLogged outbox log'
grow-IsLogged outbox log log' more h = record {
  ids = h.ids;
  logged = λ r at done. more _ (h.logged r at done);
}

module _ (em : Engine) (broker : Broker CouponIssueResultPayload) (batch_size now : ℕ) where
  mark-Cycled :
      (w after : World) (ids : List ℤ)
      → after.db ≡ w.db
      → after.cache ≡ w.cache
      → (IsLogged w.db.outbox w.log → IsLogged (map (set_published ids now) w.db.outbox) after.log)
      → (IsLogged w.db.outbox w.log → IsLogged w.db.outbox after.log)
      → Cycled now w (on_db (mark_published em ids now) after)
  unfolding mark_published
  mark-Cycled w after [] same cache_same marks grown = record {
    db_after = inl same;
    cache_same = cache_same;
    logged = rw same grown;
  }
  mark-Cycled w after (id ∷ ids) same cache_same marks grown =
      elim (em.update_published_lem (id ∷ ids) now after.db) [
        | Writes.wrote a db' fits e ↦
            rw (e, fits, same)
              (record { db_after = inr (id ∷ ids, refl); cache_same = cache_same; logged = marks })
        | Writes.fault x f e ↦
            rw (e, same) (record { db_after = inl refl; cache_same = cache_same; logged = grown })
      ]

  publish_pending-Cycled : (w : World) → Cycled now w (publish_pending em broker batch_size now w)
  unfolding publish_pending find_pending
  publish_pending-Cycled w = elim (em.find_pending_lem batch_size w.db) [
    | Reads.fault x f e ↦ rw e (record { db_after = inl refl; cache_same = refl; logged = λ h. h })
    | Reads.read rows (fits, short) e ↦
        let sends = publish_all_lem em broker batch_size now rows w in
        rw (e, sends.returns)
          (mark-Cycled w sends.after sends.ids sends.db_same sends.cache_same
            (λ h.
              mark-IsLogged sends.ids now w.db.outbox sends.after.log
                (grow-IsLogged w.db.outbox w.log sends.after.log sends.grows h)
                λ id m.
                  let (r, at, same, in_log) = sends.sent id m in
                  (r, (Mem_of_All _ rows fits at).0, same, in_log))
            (grow-IsLogged w.db.outbox w.log sends.after.log sends.grows))
  ]

  -- Every cycle returns, marks only rows whose messages are in the topic, and clears its flag.
  pub poll_lem : (w : World) → Polled now w (poll em broker batch_size now w)
  unfolding poll
  poll_lem w = elim (Bool-cases w.running) [
    | inl busy ↦ rw busy (record {
      returns = refl;
      db_after = inl refl;
      cache_same = refl;
      running_same = refl;
      logged = λ h. h;
    })
    | inr idle ↦
        let cycle = publish_pending-Cycled (record w { running = true }) in
        rw idle (record {
          returns = refl;
          db_after = cycle.db_after;
          cache_same = cycle.cache_same;
          running_same = refl;
          logged = cycle.logged;
        })
  ]
