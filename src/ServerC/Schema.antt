-- ===== src/ServerC/Schema.antt =====
-- migrations/server-c: the tables of server-c. A BIGINT column is an integer, and an instant (`Date`,
-- DATETIME(3)) is its number of milliseconds since 1970.
use coupon_nestjs.Prelude.{ℕ, ℤ, String, Option, List}
use coupon_nestjs.Common.Statuses.{UserCouponStatus, EventStatus, OutboxEventStatus}
use coupon_nestjs.Common.Payloads.{CouponIssueResultPayload}

pub record UserCouponRow : Type 0 where
  pub user_coupon_id : ℤ
  pub code : String
  pub user_id : ℤ
  pub event_id : ℤ
  pub coupon_type_id : ℤ
  pub status : UserCouponStatus
  pub issued_at : ℕ
  pub used_at : Option ℕ
  pub version : ℕ

-- The columns that an INSERT into `user_coupon` gives; the database gives `user_coupon_id`.
pub record UserCouponValues : Type 0 where
  pub code : String
  pub user_id : ℤ
  pub event_id : ℤ
  pub coupon_type_id : ℤ
  pub status : UserCouponStatus
  pub issued_at : ℕ
  pub used_at : Option ℕ
  pub version : ℕ

pub record InventoryRow : Type 0 where
  pub coupon_type_inventory_id : ℤ
  pub event_id : ℤ
  pub coupon_type_id : ℤ
  pub total_inventory : ℤ
  pub available_count : ℤ

pub record EventRow : Type 0 where
  pub event_id : ℤ
  pub name : String
  pub content : Option String
  pub started_at : ℕ
  pub ended_at : ℕ
  pub status : EventStatus

-- The TEXT column `payload` holds the JSON of the payload; it is read only by being published.
pub record OutboxRow : Type 0 where
  pub outbox_event_id : ℤ
  pub aggregate_id : String
  pub event_type : String
  pub payload : CouponIssueResultPayload
  pub status : OutboxEventStatus
  pub created_at : ℕ
  pub published_at : Option ℕ

-- The columns that an INSERT into `outbox_event` gives.
pub record OutboxValues : Type 0 where
  pub aggregate_id : String
  pub event_type : String
  pub payload : CouponIssueResultPayload
  pub status : OutboxEventStatus

-- The database of server-c: each table's rows, in the order of their insertion.
pub record Db : Type 0 where
  -- What the collation of `user_coupon.code` compares of a text. No statement changes it.
  pub collate : String → String
  pub user_coupon : List UserCouponRow
  pub inventory : List InventoryRow
  pub event : List EventRow
  pub outbox : List OutboxRow
