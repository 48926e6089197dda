-- ===== src/ServerC/UserCoupons.antt =====
-- apps/server-c/src/application/user-coupon-query.service.ts with the views of views.ts and the
-- controllers user-coupon.controller.ts and user-coupon-internal.controller.ts. The text of an instant is a parameter.
pub mod Mine
use mathlib.Core.Option
use coupon_nestjs.Prelude.{ℕ, ℤ, String, Option, none, some, List, map}
use coupon_nestjs.Common.Errors.{domain, coupon_not_found}
use coupon_nestjs.Common.Requests.{user_id_of}
use coupon_nestjs.Common.Text.{◌<+>◌, show_int}
use coupon_nestjs.Common.Statuses.{UserCouponStatus}
use coupon_nestjs.Effect.{Async, pure, lift, throw, ◌>>=◌}
use coupon_nestjs.ServerC.Schema.{Db}
use coupon_nestjs.ServerC.Domain.{UserCoupon}
use coupon_nestjs.ServerC.Engine.{Engine}
use coupon_nestjs.ServerC.Repositories.{find_all_by_user_id, find_by_user_id_and_coupon_type_id}

pub record UserCouponInternalView : Type 0 where
  pub user_id : ℤ
  pub event_id : ℤ
  pub coupon_type_id : ℤ
  pub code : String
  pub status : UserCouponStatus
  pub issued_at : String

pub record UserCouponView : Type 0 where
  pub user_id : ℤ
  pub event_id : ℤ
  pub coupon_type_id : ℤ
  pub code : String
  pub status : UserCouponStatus
  pub issued_at : String
  pub used_at : Option String

module _ (to_local_date_time_string : ℕ → String) where
  abbrev pub to_user_coupon_internal_view : UserCoupon → UserCouponInternalView
  to_user_coupon_internal_view c = record {
    user_id = c.user_id;
    event_id = c.event_id;
    coupon_type_id = c.coupon_type_id;
    code = c.code;
    status = c.status;
    issued_at = to_local_date_time_string c.issued_at;
  }

  abbrev pub text_or_null : Option ℕ → Option String
  text_or_null = Option.map to_local_date_time_string

  abbrev pub to_user_coupon_view : UserCoupon → UserCouponView
  to_user_coupon_view c = record {
    user_id = c.user_id;
    event_id = c.event_id;
    coupon_type_id = c.coupon_type_id;
    code = c.code;
    status = c.status;
    issued_at = to_local_date_time_string c.issued_at;
    used_at = text_or_null c.used_at;
  }

  -- The service.
  unfoldable pub find_all_views : Engine → ℤ → Async Db (List UserCouponView)
  find_all_views em user_id = do
    coupons ← find_all_by_user_id em user_id
    pure (map to_user_coupon_view coupons)

  -- The controller of a user's own coupons, up to the envelope: the header tells whose they are.
  unfoldable pub find_mine : Engine → (ℤ → ℤ) → Option String → Async Db (List UserCouponView)
  find_mine em rounded header =
      lift (user_id_of rounded header) >>= λ user_id. find_all_views em user_id

  unfoldable pub find_internal_view : Engine → ℤ → ℤ → Async Db (Option UserCouponInternalView)
  find_internal_view em user_id coupon_type_id = do
    coupon ← find_by_user_id_and_coupon_type_id em user_id coupon_type_id
    pure (Option.map to_user_coupon_internal_view coupon)

  abbrev pub view_or_not_found :
      ℤ → ℤ → Option UserCouponInternalView → Async Db UserCouponInternalView
  view_or_not_found user_id coupon_type_id none = throw (
      domain (
        coupon_not_found (
          "user_coupon not found: userId="
          <+> show_int user_id
          <+> ", couponTypeId="
          <+> show_int coupon_type_id)))
  view_or_not_found user_id coupon_type_id (some view) = pure view

  -- The controller, up to the envelope.
  unfoldable pub find_one : Engine → ℤ → ℤ → Async Db UserCouponInternalView
  find_one em user_id coupon_type_id =
      find_internal_view em user_id coupon_type_id >>= view_or_not_found user_id coupon_type_id
