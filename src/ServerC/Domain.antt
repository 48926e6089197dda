-- ===== src/ServerC/Domain.antt =====
-- apps/server-c/src/domain: the aggregates, with the mappers of
-- apps/server-c/src/infrastructure/persistence/mappers.ts between them and the rows.
use coupon_nestjs.Prelude.{
  ℕ, ℤ, String, Bool, true, false, ◌&&◌, not, Option, none, some, leb, is_some, is_positive,
  decremented, pos, ◌==◌, int_eq, if◌then◌else◌,
}
use coupon_nestjs.Common.Statuses.{UserCouponStatus, EventStatus, is_success}
use coupon_nestjs.ServerC.Schema.{UserCouponRow, UserCouponValues, InventoryRow, EventRow}

pub record UserCoupon : Type 0 where
  pub id : Option ℤ
  pub code : String
  pub user_id : ℤ
  pub event_id : ℤ
  pub coupon_type_id : ℤ
  pub status : UserCouponStatus
  pub issued_at : ℕ
  pub used_at : Option ℕ
  pub version : ℕ

abbrev pub issue_coupon : String → ℤ → ℤ → ℤ → UserCouponStatus → ℕ → UserCoupon
issue_coupon code user_id event_id coupon_type_id status issued_at = record {
  id = none;
  code = code;
  user_id = user_id;
  event_id = event_id;
  coupon_type_id = coupon_type_id;
  status = status;
  issued_at = issued_at;
  used_at = none;
  version = 0;
}

abbrev pub is_owned_by : UserCoupon → ℤ → Bool
is_owned_by c user_id = c.user_id == user_id

abbrev pub is_redeemed : UserCoupon → Bool
is_redeemed c = is_some c.used_at

abbrev pub is_redeemable : UserCoupon → Bool
is_redeemable c = is_success c.status && not (is_some c.used_at)

pub record CouponTypeInventory : Type 0 where
  pub id : ℤ
  pub event_id : ℤ
  pub coupon_type_id : ℤ
  pub total_inventory : ℤ
  pub available_count : ℤ

-- The aggregate after the call, and what the call returns.
unfoldable pub decrement : CouponTypeInventory → CouponTypeInventory × Bool
decrement i =
    if is_positive i.available_count
    then (record i { available_count = decremented i.available_count }, true)
    else (i, false)

unfoldable pub is_depleted : CouponTypeInventory → Bool
is_depleted i = i.available_count == pos 0

pub record Event : Type 0 where
  pub id : ℤ
  pub name : String
  pub content : Option String
  pub started_at : ℕ
  pub ended_at : ℕ
  pub status : EventStatus

-- Both ends belong to the event; the status does not matter.
unfoldable pub is_active : Event → ℕ → Bool
is_active e now = leb e.started_at now && leb now e.ended_at

abbrev pub coupon_of_row : UserCouponRow → UserCoupon
coupon_of_row r = record {
  id = some r.user_coupon_id;
  code = r.code;
  user_id = r.user_id;
  event_id = r.event_id;
  coupon_type_id = r.coupon_type_id;
  status = r.status;
  issued_at = r.issued_at;
  used_at = r.used_at;
  version = r.version;
}

abbrev pub insert_values : UserCoupon → UserCouponValues
insert_values c = record {
  code = c.code;
  user_id = c.user_id;
  event_id = c.event_id;
  coupon_type_id = c.coupon_type_id;
  status = c.status;
  issued_at = c.issued_at;
  used_at = c.used_at;
  version = c.version;
}

abbrev pub inventory_of_row : InventoryRow → CouponTypeInventory
inventory_of_row r = record {
  id = r.coupon_type_inventory_id;
  event_id = r.event_id;
  coupon_type_id = r.coupon_type_id;
  total_inventory = r.total_inventory;
  available_count = r.available_count;
}

abbrev pub event_of_row : EventRow → Event
event_of_row r = record {
  id = r.event_id;
  name = r.name;
  content = r.content;
  started_at = r.started_at;
  ended_at = r.ended_at;
  status = r.status;
}
