-- ===== src/ServerC/UserCoupons/Mine.antt =====
-- A user sees his own coupons, and only these.
use mathlib.Core.List.{Perm}
use coupon_nestjs.Prelude.{ℕ, ℤ, ◌≡◌, refl, true, String, some, List, map, keep}
use coupon_nestjs.Common.Errors.{Exception}
use coupon_nestjs.Common.Text.{show_int}
use coupon_nestjs.Common.Requests.{is_exact}
use coupon_nestjs.Common.Requests.RoundTrip.{read_back}
use coupon_nestjs.Effect.{Result, ok, thrown}
use coupon_nestjs.ServerC.Schema.{UserCouponRow, Db}
use coupon_nestjs.ServerC.Domain.{coupon_of_row}
use coupon_nestjs.ServerC.Engine.{Engine, Reads, IsFault, NewestFirst, has_user}
use coupon_nestjs.ServerC.Repositories.{find_all_by_user_id}
use coupon_nestjs.ServerC.UserCoupons.{
  UserCouponView, to_user_coupon_view, find_all_views, find_mine,
}

module _ (text : ℕ → String) (em : Engine) where
  -- The views of some rows: all of the user's, the newest first.
  pub data Lists (u : ℤ) (db : Db) (out : Result (List UserCouponView) × Db) : Type 0 where
    listed :
        (rows : List UserCouponRow)
        → Perm rows (keep (has_user u) db.user_coupon)
        → NewestFirst rows
        → out ≡ (ok (map (to_user_coupon_view text) (map coupon_of_row rows)), db)
        → Lists u db out
    fault : (e : Exception) → IsFault e → out ≡ (thrown e, db) → Lists u db out

  -- A request with the header of a user, whose identifier is of at most 2^53, is answered by the views
  -- of that user's coupons, each one once and no other user's, with the newest first, unless the
  -- statement failed. Nothing changes.
  pub find_mine_lem :
      (rounded : ℤ → ℤ) (u : ℤ) (db : Db)
      → is_exact u ≡ true
      → Lists u db (find_mine text em rounded (some (show_int u)) db)
  unfolding find_mine find_all_views find_all_by_user_id
  find_mine_lem rounded u db exact =
      rw ((read_back rounded u "userId" exact).0) (elim (em.find_coupons_of_lem u db) [
        | Reads.fault x f e ↦ rw e (fault x f refl)
        | Reads.read rows fits e ↦ rw e (listed rows fits.0 fits.1 refl)
      ])
