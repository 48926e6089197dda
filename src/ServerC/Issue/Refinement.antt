-- ===== src/ServerC/Issue/Refinement.antt =====
-- The transaction of coupon-issue.processor.ts does what `Decides` and `Blames` allow.
use mathlib.Core.Option
use coupon_nestjs.Prelude.{
  ◌≡◌, refl, sym, String, List, [], ◌∷◌, ◌++◌, Bool, true, false, Option, none, some, find?, any,
  arith, Bool-cases, inl, inr, is_positive, decremented, any_of_count_if, ltb, ◌∙◌,
}
use coupon_nestjs.Common.Errors.{Exception, common, domain, http, query_failed, plain, driver}
use coupon_nestjs.Common.Statuses.{CouponIssueResultStatus}
use coupon_nestjs.Common.Payloads.{CouponIssueRequestPayload}
use coupon_nestjs.Effect.{Result, ok, thrown, Async, pure, ◌>>◌}
use coupon_nestjs.ServerC.Schema.{EventRow, InventoryRow, Db}
use coupon_nestjs.ServerC.Domain.{UserCoupon, event_of_row, is_active, decrement, inventory_of_row}
use coupon_nestjs.ServerC.Engine.{
  Engine, Reads, Writes, Commits, Inserts, IsFault, has_user_type, has_event_id, is_stock_of,
  coupon_row,
}
use coupon_nestjs.ServerC.Repositories.{
  insert, append, insert_error, exists_by_user_id_and_coupon_type_id, find_event_by_id,
  find_for_update, update_available_count,
}
use coupon_nestjs.ServerC.Issue.{
  Moment, to_result_payload, save_result, save_outbox, record_failed, record_sold_out,
  record_success, issue_from_stock, issue_for_event, issue_unless, issue_body,
  run_issue_transaction,
}
use coupon_nestjs.ServerC.Issue.Spec.{
  row_status, taken, coupon_values, outbox_values, Recorded, Decides, Blames, depleted, issued,
  known, inactive, Chooses, fail, sell_out, succeed,
}

insert_error-fault : (c : UserCoupon) (e : Exception) → IsFault e → insert_error c e ≡ e
insert_error-fault c (query_failed q) h = ground arith
insert_error-fault c (plain m) h = refl
insert_error-fault c (driver m) h = refl
insert_error-fault c (http m) h = refl
insert_error-fault c (common m) h = refl
insert_error-fault c (domain m) h = refl

module _ (request : CouponIssueRequestPayload) (at : Moment) where
  -- A part of the body that was entered in `from` with the database at `db`.
  data Outcome (from : Db) (fits : Bool → Db → Type 0) (out : Result Bool × Db) : Type 0 where
    returned :
        (flag : Bool) (db' : Db) → fits flag db' → out ≡ (ok flag, db') → Outcome from fits out
    threw :
        (e : Exception) (db' : Db)
        → Blames request at from e
        → out ≡ (thrown e, db')
        → Outcome from fits out

  Outcome-mono :
      {from : Db} {P Q : Bool → Db → Type 0} {out : Result Bool × Db}
      → ((flag : Bool) (db' : Db) → P flag db' → Q flag db')
      → Outcome from P out
      → Outcome from Q out
  Outcome-mono f (returned flag db' fits e) = returned flag db' (f flag db' fits) e
  Outcome-mono f (threw e db' why eq) = threw e db' why eq

  module _ (em : Engine) where
    abbrev record_result : CouponIssueResultStatus → Option String → Bool → Async Db Bool
    record_result status code flag = do
      save_result request at em (row_status status) code
      save_outbox request at em (to_result_payload request at status code)
      pure flag

    -- `from` is the database that the transaction began with; only its stock may have changed.
    record_result-Outcome :
        (status : CouponIssueResultStatus) (code : Option String) (flag : Bool) (from : Db)
        (stock : List InventoryRow)
        → Chooses request at from status code
        → let db : Db = record from { inventory = stock } in
          Outcome from
            (λ b db'. (b ≡ flag) × Recorded request at status code db db')
            (record_result status code flag db)
    unfolding save_result save_outbox insert append
    record_result-Outcome status code flag from stock chosen =
        let db : Db = record from { inventory = stock } in
        elim (em.insert_coupon_lem (coupon_values request at status code) db) [
          | Inserts.inserted id new_id new_user_type new_code e ↦
              let db1 : Db = record db {
                user_coupon =
                    db.user_coupon ++ coupon_row (coupon_values request at status code) id ∷ [];
              } in
              elim (em.insert_outbox_lem (outbox_values request at status code) db1) [
                | Writes.wrote a db' o e' ↦
                    rw (e, e')
                      (returned flag db'
                        (
                          refl,
                          record {
                            id = id;
                            outbox_id = o.id;
                            created_at = o.created_at;
                            id_is_new = new_id;
                            user_type_is_new = new_user_type;
                            code_is_new = new_code;
                            outbox_id_is_new = o.is_new;
                            after = o.appended;
                          },
                        )
                        refl)
                | Writes.fault x f e' ↦ rw (e, e') (threw x db1 (Blames.fault f) refl)
              ]
          | Inserts.same_user_type held e ↦ rw e (threw _ db (Blames.duplicate held refl) refl)
          | Inserts.same_code held e ↦
              rw e (threw _ db (Blames.code_taken status code chosen held refl) refl)
          | Inserts.fault x f e ↦
              rw (e, insert_error-fault _ x f) (threw x db (Blames.fault f) refl)
        ]

    issue_from_stock-Outcome :
        (event : EventRow) (db : Db)
        → find? (has_event_id request.event_id) db.event ≡ some event
        → is_active (event_of_row event) at.now ≡ true
        → (o : Option InventoryRow)
        → o ≡ find? (is_stock_of request.event_id request.coupon_type_id) db.inventory
        → Outcome db
            (Decides request at db)
            (issue_from_stock request at em (Option.map inventory_of_row o) db)
    unfolding issue_from_stock record_sold_out record_success decrement update_available_count
    issue_from_stock-Outcome event db found active none e =
        threw _ db (Blames.no_inventory event found active (sym e) refl) refl
    issue_from_stock-Outcome event db found active (some row) e =
        elim (Bool-cases (is_positive row.available_count)) [
          | inr empty ↦ rw empty (
              Outcome-mono (λ flag db' r. depleted event row found active (sym e) empty r.0 r.1)
                (record_result-Outcome CouponIssueResultStatus.sold_out none true db db.inventory
                  (sell_out row (sym e) empty)))
          | inl more ↦
              rw more
                (elim (em.update_available_lem row.coupon_type_inventory_id
                  (decremented row.available_count) db) [
                    | Writes.wrote a db' stored e' ↦
                        rw (e', stored)
                          (Outcome-mono
                            (λ flag d r. issued event row found active (sym e) more r.0 r.1)
                            (record_result-Outcome CouponIssueResultStatus.success (some at.code)
                              true db (taken row db).inventory (succeed row (sym e) more)))
                    | Writes.fault x f e' ↦ rw e' (threw x db (Blames.fault f) refl)
                  ])
        ]

    issue_for_event-Outcome :
        (db : Db) (o : Option EventRow)
        → o ≡ find? (has_event_id request.event_id) db.event
        → Outcome db
            (Decides request at db)
            (issue_for_event request at em (Option.map event_of_row o) db)
    unfolding issue_for_event record_failed find_for_update
    issue_for_event-Outcome db none e = threw _ db (Blames.no_event (sym e) refl) refl
    issue_for_event-Outcome db (some event) e =
        elim (Bool-cases (is_active (event_of_row event) at.now)) [
          | inl active ↦
              rw active (elim (em.lock_inventory_lem request.event_id request.coupon_type_id db) [
                | Reads.read o fits e' ↦
                    rw e' (issue_from_stock-Outcome event db (sym e) active o fits)
                | Reads.fault x f e' ↦ rw e' (threw x db (Blames.fault f) refl)
              ])
          | inr over ↦ rw over (
              Outcome-mono (λ flag db' r. inactive event (sym e) over r.0 r.1)
                (record_result-Outcome CouponIssueResultStatus.failed none false db db.inventory
                  (fail event (sym e) over)))
        ]

    issue_unless-Outcome :
        (db : Db) (exists : Bool)
        → (exists ≡ true
            → any (has_user_type request.user_id request.coupon_type_id) db.user_coupon ≡ true)
        → Outcome db (Decides request at db) (issue_unless request at em exists db)
    unfolding issue_unless find_event_by_id
    issue_unless-Outcome db true h = returned false db (known (h refl) refl refl) refl
    issue_unless-Outcome db false h = elim (em.find_event_lem request.event_id db) [
      | Reads.read o fits e ↦ rw e (issue_for_event-Outcome db o fits)
      | Reads.fault x f e ↦ rw e (threw x db (Blames.fault f) refl)
    ]

    issue_body-Outcome :
        (db : Db) → Outcome db (Decides request at db) (issue_body request at em db)
    unfolding issue_body exists_by_user_id_and_coupon_type_id
    issue_body-Outcome db = elim (em.count_coupons_lem request.user_id request.coupon_type_id db) [
      | Reads.read n counted e ↦
          rw e (
            issue_unless-Outcome db (ltb 0 n)
              (λ h. any_of_count_if _ db.user_coupon (ground arith)))
      | Reads.fault x f e ↦ rw e (threw x db (Blames.fault f) refl)
    ]

  Outcome-thrown :
      {from db' : Db} {P : Bool → Db → Type 0} {x : Exception}
      → Outcome from P (thrown x, db')
      → Blames request at from x
  Outcome-thrown (returned flag d fits eq) = absurd (cc eq)
  Outcome-thrown {x = x} (threw e d why eq) = let same : e ≡ x = cc eq in rw (← same) why

  -- The transaction either keeps a decision, or changes nothing and throws for a reason.
  pub data Transacted (db : Db) (out : Result Bool × Db) : Type 0 where
    committed :
        (flag : Bool) (db' : Db)
        → Decides request at db flag db'
        → out ≡ (ok flag, db')
        → Transacted db out
    aborted : (e : Exception) → Blames request at db e → out ≡ (thrown e, db) → Transacted db out

  pub run_issue_transaction_lem :
      (em : Engine) (db : Db) → Transacted db (run_issue_transaction request at em db)
  unfolding run_issue_transaction
  run_issue_transaction_lem em db = elim (em.transaction_lem Bool (issue_body request at em) db) [
    | Commits.committed flag db' ran e ↦ elim (rw ran at (issue_body-Outcome em db)) [
      | returned b d fits eq ↦ committed b d fits (e ∙ eq)
      | threw x d why eq ↦ absurd (cc eq)
    ]
    | Commits.rolled_back x db' ran e ↦
        aborted x (Outcome-thrown (rw ran at (issue_body-Outcome em db))) e
    | Commits.fault x f e ↦ aborted x (Blames.fault f) e
  ]
