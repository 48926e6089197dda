-- ===== src/ServerC/Issue/Redelivery.antt =====
-- Kafka delivers a request at least once: what a second delivery does, and what the first one does for
-- a user who is to get a coupon.
use coupon_nestjs.Prelude.{
  ℕ, String, ◌≡◌, refl, ap, ◌∙◌, ◌⊎◌, inl, inr, Bool, true, false, Option, none, some, find?, any,
  any-append, is_positive, ==_refl,
}
use coupon_nestjs.Common.Errors.{Exception}
use coupon_nestjs.Common.Statuses.{CouponIssueResultStatus}
use coupon_nestjs.Common.Payloads.{CouponIssueRequestPayload}
use coupon_nestjs.Common.Cache.{Redis}
use coupon_nestjs.Effect.{Result, ok, thrown}
use coupon_nestjs.ServerC.Schema.{EventRow, InventoryRow, Db}
use coupon_nestjs.ServerC.Domain.{event_of_row, is_active}
use coupon_nestjs.ServerC.Engine.{
  Engine, IsFault, has_user_type, has_code, has_event_id, is_stock_of, coupon_row, duplicate_entry,
}
use coupon_nestjs.ServerC.World.{World}
use coupon_nestjs.ServerC.Issue.{Moment, process, code_or_placeholder}
use coupon_nestjs.ServerC.Issue.Spec.{
  Recorded, Decides, taken, known, inactive, depleted, issued, coupon_values, Blames, Chooses, fail,
  sell_out, succeed,
}
use coupon_nestjs.ServerC.Issue.Process.{Processed, decided, repeated, failed, process_lem}

module _ (request : CouponIssueRequestPayload) where
  -- The user has a row for the coupon type, of whatever status.
  abbrev pub is_served : Db → Bool
  is_served db = any (has_user_type request.user_id request.coupon_type_id) db.user_coupon

  -- What a delivery leaves alone.
  pub record Untouched (w w' : World) : Type 0 where
    pub db_same : w'.db ≡ w.db
    pub cache_same : w'.cache ≡ w.cache
    pub log_same : w'.log ≡ w.log

  module _ (at : Moment) where
    Recorded-is_served :
        (status : CouponIssueResultStatus) (code : Option String) (db db' : Db)
        → Recorded request at status code db db'
        → is_served db' ≡ true
    Recorded-is_served status code db db' r =
        let itself : has_user_type request.user_id request.coupon_type_id
              (coupon_row (coupon_values request at status code) r.id)
            ≡ true =
          rw (==_refl request.user_id, ==_refl request.coupon_type_id) in
        rw (r.after, any-append _ db.user_coupon _, r.user_type_is_new, itself)

    Decides-is_served :
        (db : Db) (flag : Bool) (db' : Db) → Decides request at db flag db' → is_served db' ≡ true
    Decides-is_served db flag db' (known held f e) = rw e held
    Decides-is_served db flag db' (inactive event found over f r) =
        Recorded-is_served CouponIssueResultStatus.failed none db db' r
    Decides-is_served db flag db' (depleted event row found active at_row empty f r) =
        Recorded-is_served CouponIssueResultStatus.sold_out none db db' r
    Decides-is_served db flag db' (issued event row found active at_row more f r) =
        Recorded-is_served CouponIssueResultStatus.success (some at.code) (taken row db) db' r

    Decides-known :
        (db : Db) (flag : Bool) (db' : Db)
        → Decides request at db flag db'
        → is_served db ≡ true
        → (flag ≡ false) × (db' ≡ db)
    Decides-known db flag db' (known held f e) h = (f, e)
    Decides-known db flag db' (inactive event found over f r) h =
        absurd (cc (r.user_type_is_new, h))
    Decides-known db flag db' (depleted event row found active at_row empty f r) h =
        absurd (cc (r.user_type_is_new, h))
    Decides-known db flag db' (issued event row found active at_row more f r) h =
        absurd (cc (r.user_type_is_new, h))

    Processed-Untouched :
        (w : World) (out : Result (Unit {0}) × World)
        → Processed request at w out
        → is_served w.db ≡ true
        → Untouched w out.1
    Processed-Untouched w out (decided flag db' d e e' logs kept quiet) h =
        let (f, same) = Decides-known w.db flag db' d h in
        record { db_same = e' ∙ same; cache_same = quiet f; log_same = logs }
    Processed-Untouched w out (repeated held e) h =
        rw e (record { db_same = refl; cache_same = refl; log_same = refl })
    Processed-Untouched w out (failed e why other e') h =
        rw e' (record { db_same = refl; cache_same = refl; log_same = refl })

    pub Processed-is_served :
        (w : World) (out : Result (Unit {0}) × World)
        → Processed request at w out
        → out.0 ≡ ok tt
        → is_served out.1.db ≡ true
    Processed-is_served w out (decided flag db' d e e' logs kept quiet) h =
        rw e' (Decides-is_served w.db flag db' d)
    Processed-is_served w out (repeated held e) h = rw (ap (λ p. p.1) e) held
    Processed-is_served w out (failed e why other e') h = absurd (cc (ap (λ p. p.0) e', h))

issued_of_Decides :
    (request : CouponIssueRequestPayload) (at : Moment) (db : Db) (flag : Bool) (db' : Db)
    (event : EventRow) (row : InventoryRow)
    → Decides request at db flag db'
    → is_served request db ≡ false
    → find? (has_event_id request.event_id) db.event ≡ some event
    → is_active (event_of_row event) at.now ≡ true
    → find? (is_stock_of request.event_id request.coupon_type_id) db.inventory ≡ some row
    → is_positive row.available_count ≡ true
    → Recorded request at CouponIssueResultStatus.success (some at.code) (taken row db) db'
issued_of_Decides request at db flag db' event row (known held f e) new found active stock more =
    absurd cc
issued_of_Decides request at db flag db' event row (inactive event' found' over f r) new found
      active stock more =
    let one : event' ≡ event = cc (found, found') in absurd (cc (over, active, one))
issued_of_Decides request at db flag db' event row
      (depleted event' row' found' active' at_row empty f r) new found active stock more =
    let one : row' ≡ row = cc (stock, at_row) in absurd (cc (empty, more, one))
issued_of_Decides request at db flag db' event row
      (issued event' row' found' active' at_row more' f r) new found active stock more =
    let one : row' ≡ row = cc (stock, at_row) in rw one at r

-- An active event with stock is issued from, so the code to insert is the drawn one.
held_drawn :
    (request : CouponIssueRequestPayload) (at : Moment) (w : World) (event : EventRow)
    (row : InventoryRow)
    → find? (has_event_id request.event_id) w.db.event ≡ some event
    → is_active (event_of_row event) at.now ≡ true
    → find? (is_stock_of request.event_id request.coupon_type_id) w.db.inventory ≡ some row
    → is_positive row.available_count ≡ true
    → (status : CouponIssueResultStatus) (code : Option String)
    → Chooses request at w.db status code
    → any (has_code w.db (code_or_placeholder code request.request_id)) w.db.user_coupon ≡ true
    → any (has_code w.db at.code) w.db.user_coupon ≡ true
held_drawn request at w event row found active stock more status code (fail event' found' over) h =
    let one : event' ≡ event = cc (found, found') in absurd (cc (over, active, one))
held_drawn request at w event row found active stock more status code (sell_out row' at_row empty)
      h =
    let one : row' ≡ row = cc (stock, at_row) in absurd (cc (empty, more, one))
held_drawn request at w event row found active stock more status code (succeed row' at_row more')
      h =
    h

issued_of_Processed :
    (request : CouponIssueRequestPayload) (at : Moment) (w : World) (event : EventRow)
    (row : InventoryRow)
    → is_served request w.db ≡ false
    → find? (has_event_id request.event_id) w.db.event ≡ some event
    → is_active (event_of_row event) at.now ≡ true
    → find? (is_stock_of request.event_id request.coupon_type_id) w.db.inventory ≡ some row
    → is_positive row.available_count ≡ true
    → (out : Result (Unit {0}) × World) → Processed request at w out
    → ((out.0 ≡ ok tt)
        × Recorded request at CouponIssueResultStatus.success
            (some at.code)
            (taken row w.db)
            out.1.db)
      ⊎ ((e : Exception) × (out ≡ (thrown e, w))
          × (IsFault e
              ⊎ ((any (has_code w.db at.code) w.db.user_coupon ≡ true)
                  × (e ≡ duplicate_entry "uk_user_coupon_code"))))
issued_of_Processed request at w event row new found active stock more out
      (decided flag db' d e e' logs kept quiet) =
    inl (
      e,
      rw e' (issued_of_Decides request at w.db flag db' event row d new found active stock more),
    )
issued_of_Processed request at w event row new found active stock more out (repeated held e) =
    absurd (cc (held, new))
issued_of_Processed request at w event row new found active stock more out
      (failed e (Blames.fault f) other e') =
    inr (e, e', inl f)
issued_of_Processed request at w event row new found active stock more out
      (failed e (Blames.duplicate held d) other e') =
    absurd cc
issued_of_Processed request at w event row new found active stock more out
      (failed e (Blames.code_taken status code chosen held x) other e') =
    inr (
      e,
      e',
      inr (held_drawn request at w event row found active stock more status code chosen held, x),
    )
issued_of_Processed request at w event row new found active stock more out
      (failed e (Blames.no_event n x) other e') =
    absurd (cc (n, found))
issued_of_Processed request at w event row new found active stock more out
      (failed e (Blames.no_inventory event' found' active' n x) other e') =
    absurd (cc (n, stock))

module _ (em : Engine) (redis : Redis) (ttl : ℕ) (request : CouponIssueRequestPayload) where
  -- After a delivery that returned, another delivery of the same request, at any time and with any new
  -- code, changes neither the database nor the sold-out cache nor the topic.
  pub process_twice :
      (at later : Moment) (w w' : World)
      → process request at em redis ttl w ≡ (ok tt, w')
      → Untouched request w' (process request later em redis ttl w').1
  process_twice at later w w' ran =
      Processed-Untouched request later w' _ (process_lem request later em redis ttl w') (
        rw ran at (Processed-is_served request at w _ (process_lem request at em redis ttl w)) refl)

  -- In a database where the user has no row for the coupon type, the event is active, and its stock row
  -- has stock, a delivery either returns with one unit less, a SUCCESS row of the drawn code and its
  -- report, or it throws and changes nothing, because a statement failed or, with MySQL's error on
  -- the key of the codes, because the drawn code was taken.
  pub process_available :
      (at : Moment) (w : World) (event : EventRow) (row : InventoryRow)
      → is_served request w.db ≡ false
      → find? (has_event_id request.event_id) w.db.event ≡ some event
      → is_active (event_of_row event) at.now ≡ true
      → find? (is_stock_of request.event_id request.coupon_type_id) w.db.inventory ≡ some row
      → is_positive row.available_count ≡ true
      → let out = process request at em redis ttl w in
        ((out.0 ≡ ok tt)
          × Recorded request at CouponIssueResultStatus.success
              (some at.code)
              (taken row w.db)
              out.1.db)
        ⊎ ((e : Exception) × (out ≡ (thrown e, w))
            × (IsFault e
                ⊎ ((any (has_code w.db at.code) w.db.user_coupon ≡ true)
                    × (e ≡ duplicate_entry "uk_user_coupon_code"))))
  process_available at w event row new found active stock more =
      issued_of_Processed request at w event row new found active stock more _
        (process_lem request at em redis ttl w)
