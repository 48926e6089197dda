-- ===== src/ServerC/Repositories.antt =====
-- apps/server-c/src/infrastructure/persistence: the TypeORM repositories over the engine.
use mathlib.Core.Option
use coupon_nestjs.Prelude.{
  ℕ, ℤ, String, Bool, false, Option, none, some, List, [], ◌∷◌, map, ltb, ◌==◌, nat_eq, string_eq,
  if◌then◌else◌,
}
use coupon_nestjs.Common.Errors.{Exception, query_failed, domain, duplicate_user_coupon}
use coupon_nestjs.Common.Filter.{or_else}
use coupon_nestjs.Common.Text.{◌<+>◌, show_int}
use coupon_nestjs.Common.Statuses.{EventStatus, OutboxEventStatus}
use coupon_nestjs.Common.Payloads.{CouponIssueResultPayload}
use coupon_nestjs.Effect.{Async, pure, throw, ◌>>=◌, try_catch}
use coupon_nestjs.ServerC.Schema.{OutboxRow, Db}
use coupon_nestjs.ServerC.Domain.{
  UserCoupon, CouponTypeInventory, Event, coupon_of_row, insert_values, inventory_of_row,
  event_of_row,
}
use coupon_nestjs.ServerC.Engine.{Engine}

abbrev pub uk_user_coupon_user_type : String
uk_user_coupon_user_type = "uk_user_coupon_user_type"

-- `ER_DUP_ENTRY`
abbrev is_dup_entry : Option ℕ → Bool
is_dup_entry none = false
is_dup_entry (some errno) = errno == 1062

-- The name of the violated constraint, if the exception is of one.
abbrev pub violated_constraint : Exception → Option String
violated_constraint (query_failed q) = if is_dup_entry q.errno then q.key else none
violated_constraint _ = none

abbrev pub is_user_type_violation : Option String → Bool
is_user_type_violation none = false
is_user_type_violation (some key) = key == uk_user_coupon_user_type

abbrev pub already_exists : UserCoupon → Exception
already_exists c = domain (
    duplicate_user_coupon (
      "user_coupon already exists: userId="
      <+> show_int c.user_id
      <+> ", couponTypeId="
      <+> show_int c.coupon_type_id))

-- What `insert` throws for what the statement threw.
abbrev pub insert_error : UserCoupon → Exception → Exception
insert_error c e = if is_user_type_violation (violated_constraint e) then already_exists c else e

module _ (em : Engine) where
  unfoldable pub exists_by_user_id_and_coupon_type_id : ℤ → ℤ → Async Db Bool
  exists_by_user_id_and_coupon_type_id user_id coupon_type_id = do
    count ← em.count_coupons user_id coupon_type_id
    pure (ltb 0 count)

  unfoldable pub find_by_code : String → Async Db (Option UserCoupon)
  find_by_code code = do row ← em.find_coupon_by_code code; pure (Option.map coupon_of_row row)

  unfoldable pub find_by_user_id_and_coupon_type_id : ℤ → ℤ → Async Db (Option UserCoupon)
  find_by_user_id_and_coupon_type_id user_id coupon_type_id = do
    row ← em.find_coupon user_id coupon_type_id
    pure (Option.map coupon_of_row row)

  unfoldable pub insert : UserCoupon → Async Db (Unit {0})
  insert coupon =
      try_catch (em.insert_coupon (insert_values coupon)) (λ e. throw (insert_error coupon e))

  -- `result.affected ?? 0`
  unfoldable pub mark_used : ℤ → ℕ → ℕ → Async Db ℕ
  mark_used id expected_version used_at = do
    affected ← em.update_used id expected_version used_at
    pure (or_else affected 0)

  unfoldable pub find_for_update : ℤ → ℤ → Async Db (Option CouponTypeInventory)
  find_for_update event_id coupon_type_id = do
    row ← em.lock_inventory event_id coupon_type_id
    pure (Option.map inventory_of_row row)

  unfoldable pub find_by_event_id_and_coupon_type_id : ℤ → ℤ → Async Db (Option CouponTypeInventory)
  find_by_event_id_and_coupon_type_id event_id coupon_type_id = do
    row ← em.find_inventory event_id coupon_type_id
    pure (Option.map inventory_of_row row)

  unfoldable pub update_available_count : CouponTypeInventory → Async Db (Unit {0})
  update_available_count inventory = em.update_available inventory.id inventory.available_count

  unfoldable pub find_event_by_id : ℤ → Async Db (Option Event)
  find_event_by_id event_id = do row ← em.find_event event_id; pure (Option.map event_of_row row)

  unfoldable pub find_all_by_user_id : ℤ → Async Db (List UserCoupon)
  find_all_by_user_id user_id = do rows ← em.find_coupons_of user_id; pure (map coupon_of_row rows)

  unfoldable pub find_events_by_status : EventStatus → Async Db (List Event)
  find_events_by_status status = do rows ← em.find_events status; pure (map event_of_row rows)

  unfoldable pub append : String → String → CouponIssueResultPayload → Async Db (Unit {0})
  append aggregate_id event_type payload = em.insert_outbox (record {
    aggregate_id = aggregate_id;
    event_type = event_type;
    payload = payload;
    status = OutboxEventStatus.pending;
  })

  unfoldable pub find_pending : ℕ → Async Db (List OutboxRow)
  find_pending limit = em.find_pending limit

  -- The number of updated rows is not used by the caller.
  unfoldable pub mark_published : List ℤ → ℕ → Async Db (Unit {0})
  mark_published [] published_at = pure tt
  mark_published (id ∷ ids) published_at = em.update_published (id ∷ ids) published_at
