-- ===== src/ServerC/Redeem.antt =====
-- apps/server-c/src/application/redeem-coupon.service.ts, redeem.command.ts and redeem.result.ts.
pub mod Refinement
pub mod Keeps
pub mod Twice
pub mod Late
use coupon_nestjs.Prelude.{
  ℕ, ℤ, pos, String, Bool, true, false, Option, none, some, is_positive, ◌==◌, nat_eq, int_eq,
  if◌then◌else◌,
}
use coupon_nestjs.Common.Errors.{
  Exception, common, domain, plain, invalid_argument, invalid_state, coupon_not_found,
  optimistic_lock_failure,
}
use coupon_nestjs.Common.Filter.{or_else}
use coupon_nestjs.Common.Text.{◌<+>◌, show_nat, show_int, is_blank}
use coupon_nestjs.Common.Statuses.{UserCouponStatus}
use coupon_nestjs.Effect.{Result, ok, thrown, Async, pure, throw, ◌>>=◌}
use coupon_nestjs.ServerC.Schema.{Db}
use coupon_nestjs.ServerC.Domain.{UserCoupon, is_owned_by, is_redeemable}
use coupon_nestjs.ServerC.Engine.{Engine}
use coupon_nestjs.ServerC.Repositories.{find_by_code, mark_used}

pub record RedeemCommand : Type 0 where
  pub code : String
  pub user_id : ℤ

abbrev require_user : String → ℤ → Result RedeemCommand
require_user code user_id =
    if is_positive user_id
    then ok (record { code = code; user_id = user_id })
    else thrown
        (common (invalid_argument ("userId must be positive but was " <+> show_int user_id)))

-- The constructor with its checks, in their order.
unfoldable pub redeem_command : Option String → ℤ → Result RedeemCommand
redeem_command none user_id = thrown (plain "code")
redeem_command (some code) user_id =
    if is_blank code
    then thrown (common (invalid_argument "code must not be blank"))
    else require_user code user_id

pub record RedeemResult : Type 0 where
  pub code : String
  pub user_id : ℤ
  pub redeemed_at : ℕ
  pub newly_redeemed : Bool

abbrev pub succeeded : String → ℤ → ℕ → RedeemResult
succeeded code user_id redeemed_at = record {
  code = code;
  user_id = user_id;
  redeemed_at = redeemed_at;
  newly_redeemed = true;
}

-- The time is that of the first use.
abbrev pub already_redeemed : String → ℤ → ℕ → RedeemResult
already_redeemed code user_id redeemed_at = record {
  code = code;
  user_id = user_id;
  redeemed_at = redeemed_at;
  newly_redeemed = false;
}

-- What a missing coupon and a coupon of another user have in common.
abbrev pub not_found : String → Exception
not_found code = domain (coupon_not_found ("coupon not found: code=" <+> code))

abbrev pub status_text : UserCouponStatus → String
status_text UserCouponStatus.success = "SUCCESS"
status_text UserCouponStatus.sold_out = "SOLD_OUT"
status_text UserCouponStatus.failed = "FAILED"
status_text UserCouponStatus.used = "USED"

abbrev pub not_redeemable : UserCoupon → Exception
not_redeemable c =
    common (invalid_state ("coupon is not redeemable: status=" <+> status_text c.status))

abbrev pub lost_race : String → ℕ → Exception
lost_race code version = domain (
    optimistic_lock_failure
      ("concurrent redeem detected: code=" <+> code <+> ", version=" <+> show_nat version))

module _ (em : Engine) (command : RedeemCommand) (now : ℕ) where
  abbrev claimed : UserCoupon → ℕ → Async Db RedeemResult
  claimed coupon affected =
      if affected == 0
      then throw (lost_race command.code coupon.version)
      else pure (succeeded coupon.code coupon.user_id now)

  -- The conditional UPDATE, which another request may have won. A coupon that was read has an id.
  unfoldable pub claim : UserCoupon → Async Db RedeemResult
  claim coupon = do
    affected ← mark_used em (or_else coupon.id (pos 0)) coupon.version now
    claimed coupon affected

  -- `isRedeemed()` is that `usedAt` is not null.
  abbrev pub redeem_owned : UserCoupon → Option ℕ → Async Db RedeemResult
  redeem_owned coupon (some used_at) = pure (already_redeemed coupon.code coupon.user_id used_at)
  redeem_owned coupon none =
      if is_redeemable coupon then claim coupon else throw (not_redeemable coupon)

  abbrev pub redeem_found : Option UserCoupon → Async Db RedeemResult
  redeem_found none = throw (not_found command.code)
  redeem_found (some coupon) =
      if is_owned_by coupon command.user_id
      then redeem_owned coupon coupon.used_at
      else throw (not_found command.code)

  unfoldable pub redeem_body : Async Db RedeemResult
  redeem_body = do coupon ← find_by_code em command.code; redeem_found coupon

  unfoldable pub redeem : Async Db RedeemResult
  redeem = em.transaction RedeemResult redeem_body
