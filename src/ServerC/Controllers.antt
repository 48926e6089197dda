-- ===== src/ServerC/Controllers.antt =====
-- apps/server-c/src/api/redeem-coupon.controller.ts, with redeem-coupon.view.ts, and
-- event-query.controller.ts; the other controllers are in UserCoupons. The text of an instant is a
-- parameter.
use coupon_nestjs.Prelude.{ℕ, ℤ, String, Bool, Option, some}
use coupon_nestjs.Common.Cache.{Redis}
use coupon_nestjs.Common.Requests.{user_id_of, parse_long}
use coupon_nestjs.Effect.{Async, pure, lift, ◌>>=◌}
use coupon_nestjs.ServerC.Schema.{Db}
use coupon_nestjs.ServerC.Engine.{Engine}
use coupon_nestjs.ServerC.World.{World}
use coupon_nestjs.ServerC.Redeem.{RedeemResult, redeem_command}
use coupon_nestjs.ServerC.Redeem as Redeem
use coupon_nestjs.ServerC.Events.{EventView, Formats, find_by_id}

pub record RedeemCouponView : Type 0 where
  pub code : String
  pub user_id : ℤ
  pub redeemed_at : String
  pub newly_redeemed : Bool

abbrev pub to_redeem_view : (ℕ → String) → RedeemResult → RedeemCouponView
to_redeem_view text result = record {
  code = result.code;
  user_id = result.user_id;
  redeemed_at = text result.redeemed_at;
  newly_redeemed = result.newly_redeemed;
}

-- `redeem`, with the code of the path and the header, up to the envelope.
unfoldable pub redeem :
    (ℕ → String) → (ℤ → ℤ) → Engine → ℕ → String → Option String → Async Db RedeemCouponView
redeem text rounded em now code header = lift (user_id_of rounded header) >>= λ user_id.
    lift (redeem_command (some code) user_id) >>= λ command.
    Redeem.redeem em command now >>= λ result. pure (to_redeem_view text result)

-- `findOne`, up to the envelope.
unfoldable pub find_one : Formats → (ℤ → ℤ) → Engine → Redis → ℕ → String → Async World EventView
find_one formats rounded em redis ttl event_id =
    lift (parse_long rounded (some "eventId") (some event_id)) >>= λ id.
    find_by_id formats redis ttl em id
