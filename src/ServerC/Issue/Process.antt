-- ===== src/ServerC/Issue/Process.antt =====
-- `process` of coupon-issue.processor.ts as a whole: what a delivery does to the database and to the
-- sold-out cache, and what it throws.

use coupon_nestjs.Prelude.{
  ℕ, ◌≡◌, refl, sym, ap, inl, inr, Bool, true, false, none, some, find?, any, pos, Bool-cases,
  int_beq_iff,
}
use coupon_nestjs.Common.Errors.{Exception, common, domain, http, query_failed, plain, driver}
use coupon_nestjs.Common.Payloads.{CouponIssueRequestPayload}
use coupon_nestjs.Common.Cache.{Cache, Redis, stored}
use coupon_nestjs.Effect.{Result, ok, thrown}
use coupon_nestjs.ServerC.Schema.{InventoryRow, Db}
use coupon_nestjs.ServerC.Domain.{is_depleted, inventory_of_row}
use coupon_nestjs.ServerC.Engine.{Engine, Reads, IsFault, has_user_type, is_stock_of}
use coupon_nestjs.ServerC.Repositories.{find_by_event_id_and_coupon_type_id}
use coupon_nestjs.ServerC.SoldOut.{coupon_available, sentinel_value, mark_sold_out_lem}
use coupon_nestjs.ServerC.World.{World}
use coupon_nestjs.ServerC.Issue.{
  Moment, is_duplicate_user_coupon, mark_sold_out_if_depleted, after_transaction, process,
}
use coupon_nestjs.ServerC.Issue.Spec.{Decides, Blames}
use coupon_nestjs.ServerC.Issue.Refinement.{committed, aborted, run_issue_transaction_lem}

eq-zero_of_is_depleted :
    (row : InventoryRow) → is_depleted (inventory_of_row row) ≡ true → row.available_count ≡ pos 0
unfolding is_depleted
eq-zero_of_is_depleted row h = (int_beq_iff _ _).0 h

not-duplicate_of_IsFault : (e : Exception) → IsFault e → is_duplicate_user_coupon e ≡ false
not-duplicate_of_IsFault (query_failed q) h = refl
not-duplicate_of_IsFault (driver m) h = refl
not-duplicate_of_IsFault (plain m) h = elim h [ ]
not-duplicate_of_IsFault (common m) h = elim h [ ]
not-duplicate_of_IsFault (domain m) h = elim h [ ]
not-duplicate_of_IsFault (http m) h = elim h [ ]

held_of_duplicate :
    (request : CouponIssueRequestPayload) (at : Moment) {db : Db} {e : Exception}
    → Blames request at db e
    → is_duplicate_user_coupon e ≡ true
    → any (has_user_type request.user_id request.coupon_type_id) db.user_coupon ≡ true
held_of_duplicate request at {e = e} (Blames.fault f) h =
    absurd (cc (not-duplicate_of_IsFault e f, h))
held_of_duplicate request at (Blames.duplicate held d) h = held
held_of_duplicate request at (Blames.code_taken status code chosen held e) h = absurd (cc h)
held_of_duplicate request at (Blames.no_event n e) h =
    absurd (cc (ap is_duplicate_user_coupon e, h))
held_of_duplicate request at (Blames.no_inventory event found active n e) h =
    absurd (cc (ap is_duplicate_user_coupon e, h))

module _ (request : CouponIssueRequestPayload) (at : Moment) where
  -- The cache is left alone, or it says sold out and the stock row stands at zero.
  pub data CacheKept (db : Db) (cache cache' : Cache) : Type 0 where
    same : cache' ≡ cache → CacheKept db cache cache'
    sold_out :
        (row : InventoryRow)
        → find? (is_stock_of request.event_id request.coupon_type_id) db.inventory ≡ some row
        → row.available_count ≡ pos 0
        → cache'
          ≡ stored (coupon_available request.event_id request.coupon_type_id) sentinel_value cache
        → CacheKept db cache cache'

  -- What a delivery may come to.
  pub data Processed (w : World) (out : Result (Unit {0}) × World) : Type 0 where
    decided :
        (flag : Bool) (db' : Db)
        → Decides request at w.db flag db'
        → out.0 ≡ ok tt
        → out.1.db ≡ db'
        → out.1.log ≡ w.log
        → CacheKept db' w.cache out.1.cache
        → (flag ≡ false → out.1.cache ≡ w.cache)
        → Processed w out
    repeated :
        any (has_user_type request.user_id request.coupon_type_id) w.db.user_coupon ≡ true
        → out ≡ (ok tt, w)
        → Processed w out
    failed :
        (e : Exception)
        → Blames request at w.db e
        → is_duplicate_user_coupon e ≡ false
        → out ≡ (thrown e, w)
        → Processed w out

  -- The look at the cache after a commit never throws and never touches the database.
  record Looked (w : World) (out : Result (Unit {0}) × World) : Type 0 where
    returns : out.0 ≡ ok tt
    db_same : out.1.db ≡ w.db
    log_same : out.1.log ≡ w.log
    cache_kept : CacheKept w.db w.cache out.1.cache

  module _ (em : Engine) (redis : Redis) (ttl : ℕ) where
    mark_sold_out_if_depleted_lem :
        (w : World) → Looked w (mark_sold_out_if_depleted request at em redis ttl w)
    unfolding mark_sold_out_if_depleted find_by_event_id_and_coupon_type_id
    mark_sold_out_if_depleted_lem w =
        elim (em.find_inventory_lem request.event_id request.coupon_type_id w.db) [
          | Reads.fault x f e ↦
              rw e
                (record { returns = refl; db_same = refl; log_same = refl; cache_kept = same refl })
          | Reads.read none fits e ↦
              rw e
                (record { returns = refl; db_same = refl; log_same = refl; cache_kept = same refl })
          | Reads.read (some row) fits e ↦
              rw e (elim (Bool-cases (is_depleted (inventory_of_row row))) [
                | inr left ↦ rw left (record {
                  returns = refl;
                  db_same = refl;
                  log_same = refl;
                  cache_kept = same refl;
                })
                | inl zero_left ↦
                    rw zero_left
                      (elim (mark_sold_out_lem redis ttl request.event_id request.coupon_type_id
                        w.cache) [
                          | inl e' ↦ rw e' (record {
                            returns = refl;
                            db_same = refl;
                            log_same = refl;
                            cache_kept =
                                sold_out row (sym fits) (eq-zero_of_is_depleted row zero_left) refl;
                          })
                          | inr e' ↦ rw e' (record {
                            returns = refl;
                            db_same = refl;
                            log_same = refl;
                            cache_kept = same refl;
                          })
                        ])
              ])
        ]

    settle-Processed :
        (w : World) (flag : Bool) (db' : Db)
        → Decides request at w.db flag db'
        → Processed w (after_transaction request at em redis ttl (ok flag) (record w { db = db' }))
    unfolding after_transaction
    settle-Processed w false db' d = decided false db' d refl refl refl (same refl) (λ _. refl)
    settle-Processed w true db' d =
        let look = mark_sold_out_if_depleted_lem (record w { db = db' }) in
        decided true db' d look.returns look.db_same look.log_same look.cache_kept
          (λ h. absurd (cc h))

    give_up-Processed :
        (w : World) (e : Exception)
        → Blames request at w.db e
        → Processed w (after_transaction request at em redis ttl (thrown e) w)
    unfolding after_transaction
    give_up-Processed w e why = elim (Bool-cases (is_duplicate_user_coupon e)) [
      | inl dup ↦ rw dup (repeated (held_of_duplicate request at why dup) refl)
      | inr other ↦ rw other (failed e why other refl)
    ]

    -- Every delivery comes to one of three. It returns, having recorded what `Decides` allows for the
    -- event and the stock (or nothing, if the user has a row), with the sold-out cache left alone or
    -- marking a stock row at zero. It returns and changes nothing, because the user has a row. Or it
    -- throws, for a reason of `Blames` other than the duplicate, and changes nothing.
    pub process_lem : (w : World) → Processed w (process request at em redis ttl w)
    unfolding process
    process_lem w = elim (run_issue_transaction_lem request at em w.db) [
      | committed flag db' d e ↦ rw e (settle-Processed w flag db' d)
      | aborted x why e ↦ rw e (give_up-Processed w x why)
    ]
