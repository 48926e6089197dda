-- ===== src/ServerC/Issue.antt =====
-- apps/server-c/src/application/coupon-issue.processor.ts: the transaction that issues a coupon, and
-- the sold-out cache that is written after it has committed.
pub mod Spec
pub mod Refinement
pub mod Process
pub mod Stock
pub mod Unique
pub mod Redelivery
use coupon_nestjs.Prelude.{ℕ, String, Bool, true, false, Option, none, some, if◌then◌else◌}
use coupon_nestjs.Common.Errors.{Exception, domain, duplicate_user_coupon, plain}
use coupon_nestjs.Common.Text.{◌<+>◌, show_int, prefix}
use coupon_nestjs.Common.Statuses.{UserCouponStatus, CouponIssueResultStatus}
use coupon_nestjs.Common.Payloads.{CouponIssueRequestPayload, CouponIssueResultPayload}
use coupon_nestjs.Common.Cache.{Redis}
use coupon_nestjs.ServerC.World.{World, on_db, on_cache}
use coupon_nestjs.Effect.{Result, ok, thrown, Async, pure, throw, ◌>>=◌, ◌>>◌, try_catch, when}
use coupon_nestjs.ServerC.Schema.{Db}
use coupon_nestjs.ServerC.Domain.{
  CouponTypeInventory, Event, issue_coupon, decrement, is_depleted, is_active,
}
use coupon_nestjs.ServerC.Engine.{Engine}
use coupon_nestjs.ServerC.Repositories.{
  exists_by_user_id_and_coupon_type_id, insert, find_for_update,
  find_by_event_id_and_coupon_type_id, update_available_count, find_event_by_id, append,
}
use coupon_nestjs.ServerC.SoldOut.{mark_sold_out}

-- What one delivery of a request reads besides the database: `new Date()`, the text of that instant
-- (`toInstantString`), and the code that `CouponCode.generate()` draws.
pub record Moment : Type 0 where
  pub now : ℕ
  pub now_text : String
  pub code : String

-- The first eleven characters of the request's identifier, behind an X.
abbrev pub placeholder_code : String → String
placeholder_code request_id = "X" <+> prefix 11 request_id

abbrev pub code_or_placeholder : Option String → String → String
code_or_placeholder none request_id = placeholder_code request_id
code_or_placeholder (some code) request_id = code

abbrev pub event_type_issue_result : String
event_type_issue_result = "ISSUE_RESULT"

-- `fresh?.isDepleted()`
abbrev pub fresh_is_depleted : Option CouponTypeInventory → Bool
fresh_is_depleted none = false
fresh_is_depleted (some inventory) = is_depleted inventory

-- `e instanceof DuplicateUserCouponError`
abbrev pub is_duplicate_user_coupon : Exception → Bool
is_duplicate_user_coupon (domain (duplicate_user_coupon _)) = true
is_duplicate_user_coupon _ = false

module _ (request : CouponIssueRequestPayload) (at : Moment) where
  abbrev pub to_result_payload : CouponIssueResultStatus → Option String → CouponIssueResultPayload
  to_result_payload status coupon_code = record {
    request_id = request.request_id;
    user_id = request.user_id;
    event_id = request.event_id;
    coupon_type_id = request.coupon_type_id;
    status = status;
    coupon_code = coupon_code;
    processed_at = at.now_text;
  }

  module _ (em : Engine) where
    unfoldable pub save_result : UserCouponStatus → Option String → Async Db (Unit {0})
    save_result status code = insert em (
        issue_coupon (code_or_placeholder code request.request_id) request.user_id request.event_id
          request.coupon_type_id status at.now)

    unfoldable pub save_outbox : CouponIssueResultPayload → Async Db (Unit {0})
    save_outbox payload = append em payload.request_id event_type_issue_result payload

    -- Each method below gives whether `markAvailabilityCheck()` was called.
    unfoldable pub record_failed : Async Db Bool
    record_failed = do
      save_result UserCouponStatus.failed none
      save_outbox (to_result_payload CouponIssueResultStatus.failed none)
      pure false

    unfoldable pub record_sold_out : Async Db Bool
    record_sold_out = do
      save_result UserCouponStatus.sold_out none
      save_outbox (to_result_payload CouponIssueResultStatus.sold_out none)
      pure true

    unfoldable pub record_success : CouponTypeInventory → Async Db Bool
    record_success inventory = do
      update_available_count em inventory
      save_result UserCouponStatus.success (some at.code)
      save_outbox (to_result_payload CouponIssueResultStatus.success (some at.code))
      pure true

    -- From the stock row on.
    unfoldable pub issue_from_stock : Option CouponTypeInventory → Async Db Bool
    issue_from_stock none = throw (
        plain (
          "inventory not found: eventId="
          <+> show_int request.event_id
          <+> ", couponTypeId="
          <+> show_int request.coupon_type_id))
    issue_from_stock (some inventory) =
        let (after, decremented) = decrement inventory in
        if decremented then record_success after else record_sold_out

    -- From the event on.
    unfoldable pub issue_for_event : Option Event → Async Db Bool
    issue_for_event none = throw (plain ("event not found: " <+> show_int request.event_id))
    issue_for_event (some event) =
        if is_active event at.now
        then (do
          inventory ← find_for_update em request.event_id request.coupon_type_id
          issue_from_stock inventory)
        else record_failed

    unfoldable pub issue_unless : Bool → Async Db Bool
    issue_unless true = pure false
    issue_unless false = do event ← find_event_by_id em request.event_id; issue_for_event event

    -- The body of the transaction.
    unfoldable pub issue_body : Async Db Bool
    issue_body = do
      exists ← exists_by_user_id_and_coupon_type_id em request.user_id request.coupon_type_id
      issue_unless exists

    unfoldable pub run_issue_transaction : Async Db Bool
    run_issue_transaction = em.transaction Bool issue_body

    -- The stock as it is after the commit; a failure here is logged and forgotten.
    unfoldable pub mark_sold_out_if_depleted : Redis → ℕ → Async World (Unit {0})
    mark_sold_out_if_depleted redis ttl_seconds =
        try_catch
          (do
            fresh ←
                on_db
                  (find_by_event_id_and_coupon_type_id em request.event_id request.coupon_type_id)
            when (fresh_is_depleted fresh) (
                on_cache (mark_sold_out redis ttl_seconds request.event_id request.coupon_type_id)))
          (λ _. pure tt)

    -- What follows the transaction: its exception is dropped if it is of the UNIQUE constraint on
    -- user and coupon type, and the sold-out cache is looked after if the transaction asked for it.
    unfoldable pub after_transaction : Redis → ℕ → Result Bool → Async World (Unit {0})
    after_transaction redis ttl_seconds (ok check_availability) =
        when check_availability (mark_sold_out_if_depleted redis ttl_seconds)
    after_transaction redis ttl_seconds (thrown e) =
        if is_duplicate_user_coupon e then pure tt else throw e

    unfoldable pub process : Redis → ℕ → Async World (Unit {0})
    process redis ttl_seconds w =
        let (result, w') = on_db run_issue_transaction w in
        after_transaction redis ttl_seconds result w'
