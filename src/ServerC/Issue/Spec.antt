-- ===== src/ServerC/Issue/Spec.antt =====
-- What a delivery of an issue request may do to the database, stated without the statements that do it.
use coupon_nestjs.Prelude.{
  ℕ, ℤ, ◌≡◌, String, Bool, true, false, Option, none, some, [], ◌∷◌, ◌++◌, map, any, find?,
  is_positive, decremented,
}
use coupon_nestjs.Common.Errors.{Exception, plain}
use coupon_nestjs.Common.Text.{◌<+>◌, show_int}
use coupon_nestjs.Common.Statuses.{UserCouponStatus, CouponIssueResultStatus, OutboxEventStatus}
use coupon_nestjs.Common.Payloads.{CouponIssueRequestPayload}
use coupon_nestjs.ServerC.Schema.{UserCouponValues, InventoryRow, EventRow, OutboxValues, Db}
use coupon_nestjs.ServerC.Domain.{event_of_row, is_active}
use coupon_nestjs.ServerC.Engine.{
  has_id, has_user_type, has_code, is_stock_of, has_event_id, has_outbox_id, coupon_row, outbox_row,
  set_available, IsFault, duplicate_entry,
}
use coupon_nestjs.ServerC.Issue.{
  Moment, code_or_placeholder, to_result_payload, event_type_issue_result, is_duplicate_user_coupon,
}

-- The status of the row that goes with a reported status.
abbrev pub row_status : CouponIssueResultStatus → UserCouponStatus
row_status CouponIssueResultStatus.success = UserCouponStatus.success
row_status CouponIssueResultStatus.sold_out = UserCouponStatus.sold_out
row_status CouponIssueResultStatus.failed = UserCouponStatus.failed

-- The stock row with one piece less.
abbrev pub taken : InventoryRow → Db → Db
taken row db = record db {
  inventory =
      map (set_available row.coupon_type_inventory_id (decremented row.available_count))
        db.inventory;
}

module _ (request : CouponIssueRequestPayload) (at : Moment) where
  abbrev pub coupon_values : CouponIssueResultStatus → Option String → UserCouponValues
  coupon_values status code = record {
    code = code_or_placeholder code request.request_id;
    user_id = request.user_id;
    event_id = request.event_id;
    coupon_type_id = request.coupon_type_id;
    status = row_status status;
    issued_at = at.now;
    used_at = none;
    version = 0;
  }

  abbrev pub outbox_values : CouponIssueResultStatus → Option String → OutboxValues
  outbox_values status code = record {
    aggregate_id = request.request_id;
    event_type = event_type_issue_result;
    payload = to_result_payload request at status code;
    status = OutboxEventStatus.pending;
  }

  -- One coupon row and one outbox row more, of one status; the user had no row for the coupon type, and
  -- the code is new.
  pub record Recorded (status : CouponIssueResultStatus) (code : Option String) (db db' : Db)
      : Type 0 where
    pub id : ℤ
    pub outbox_id : ℤ
    pub created_at : ℕ
    pub id_is_new : any (has_id id) db.user_coupon ≡ false
    pub user_type_is_new :
        any (has_user_type request.user_id request.coupon_type_id) db.user_coupon ≡ false
    pub code_is_new :
        any (has_code db (code_or_placeholder code request.request_id)) db.user_coupon ≡ false
    pub outbox_id_is_new : any (has_outbox_id outbox_id) db.outbox ≡ false
    pub after : db' ≡ record db {
      user_coupon = db.user_coupon ++ coupon_row (coupon_values status code) id ∷ [];
      outbox = db.outbox ++ outbox_row (outbox_values status code) outbox_id created_at ∷ [];
    }

  -- What a transaction that returns has done. The flag asks for a look at the sold-out cache.
  pub data Decides (db : Db) (flag : Bool) (db' : Db) : Type 0 where
    known :
        any (has_user_type request.user_id request.coupon_type_id) db.user_coupon ≡ true
        → flag ≡ false
        → db' ≡ db
        → Decides db flag db'
    inactive :
        (event : EventRow)
        → find? (has_event_id request.event_id) db.event ≡ some event
        → is_active (event_of_row event) at.now ≡ false
        → flag ≡ false
        → Recorded CouponIssueResultStatus.failed none db db'
        → Decides db flag db'
    depleted :
        (event : EventRow) (row : InventoryRow)
        → find? (has_event_id request.event_id) db.event ≡ some event
        → is_active (event_of_row event) at.now ≡ true
        → find? (is_stock_of request.event_id request.coupon_type_id) db.inventory ≡ some row
        → is_positive row.available_count ≡ false
        → flag ≡ true
        → Recorded CouponIssueResultStatus.sold_out none db db'
        → Decides db flag db'
    issued :
        (event : EventRow) (row : InventoryRow)
        → find? (has_event_id request.event_id) db.event ≡ some event
        → is_active (event_of_row event) at.now ≡ true
        → find? (is_stock_of request.event_id request.coupon_type_id) db.inventory ≡ some row
        → is_positive row.available_count ≡ true
        → flag ≡ true
        → Recorded CouponIssueResultStatus.success (some at.code) (taken row db) db'
        → Decides db flag db'

  -- What is to be recorded for a user without a row, by the event and the stock.
  pub data Chooses (db : Db) : CouponIssueResultStatus → Option String → Type 0 where
    fail :
        (event : EventRow)
        → find? (has_event_id request.event_id) db.event ≡ some event
        → is_active (event_of_row event) at.now ≡ false
        → Chooses db CouponIssueResultStatus.failed none
    sell_out :
        (row : InventoryRow)
        → find? (is_stock_of request.event_id request.coupon_type_id) db.inventory ≡ some row
        → is_positive row.available_count ≡ false
        → Chooses db CouponIssueResultStatus.sold_out none
    succeed :
        (row : InventoryRow)
        → find? (is_stock_of request.event_id request.coupon_type_id) db.inventory ≡ some row
        → is_positive row.available_count ≡ true
        → Chooses db CouponIssueResultStatus.success (some at.code)

  -- Why a transaction throws.
  pub data Blames (db : Db) (e : Exception) : Type 0 where
    fault : IsFault e → Blames db e
    duplicate :
        any (has_user_type request.user_id request.coupon_type_id) db.user_coupon ≡ true
        → is_duplicate_user_coupon e ≡ true
        → Blames db e
    code_taken :
        (status : CouponIssueResultStatus) (code : Option String)
        → Chooses db status code
        → any (has_code db (code_or_placeholder code request.request_id)) db.user_coupon ≡ true
        → e ≡ duplicate_entry "uk_user_coupon_code"
        → Blames db e
    no_event :
        find? (has_event_id request.event_id) db.event ≡ none
        → e ≡ plain ("event not found: " <+> show_int request.event_id)
        → Blames db e
    no_inventory :
        (event : EventRow)
        → find? (has_event_id request.event_id) db.event ≡ some event
        → is_active (event_of_row event) at.now ≡ true
        → find? (is_stock_of request.event_id request.coupon_type_id) db.inventory ≡ none
        → e
          ≡ plain (
              "inventory not found: eventId="
              <+> show_int request.event_id
              <+> ", couponTypeId="
              <+> show_int request.coupon_type_id)
        → Blames db e
