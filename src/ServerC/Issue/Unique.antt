-- ===== src/ServerC/Issue/Unique.antt =====
-- The identity of coupon rows: the primary key, one row to a user and coupon type, one row to a code.
use coupon_nestjs.Prelude.{String, Bool, Option, none, some, Distinct, Distinct-snoc}
use coupon_nestjs.Common.Statuses.{CouponIssueResultStatus}
use coupon_nestjs.Common.Payloads.{CouponIssueRequestPayload}
use coupon_nestjs.ServerC.Schema.{UserCouponRow, Db}
use coupon_nestjs.ServerC.Engine.{has_id, has_user_type, has_code}
use coupon_nestjs.ServerC.Issue.{Moment}
use coupon_nestjs.ServerC.Issue.Spec.{taken, Recorded, Decides, known, inactive, depleted, issued}

abbrev pub same_id : UserCouponRow → UserCouponRow → Bool
same_id r = has_id r.user_coupon_id

abbrev pub same_user_type : UserCouponRow → UserCouponRow → Bool
same_user_type r = has_user_type r.user_id r.coupon_type_id

abbrev pub same_code : Db → UserCouponRow → UserCouponRow → Bool
same_code db r = has_code db r.code

pub record IsUnique (db : Db) : Type 0 where
  pub ids : Distinct same_id db.user_coupon
  pub user_types : Distinct same_user_type db.user_coupon
  pub codes : Distinct (same_code db) db.user_coupon

module _ (request : CouponIssueRequestPayload) (at : Moment) where
  Recorded-IsUnique :
      (status : CouponIssueResultStatus) (code : Option String) (db db' : Db)
      → Recorded request at status code db db'
      → IsUnique db
      → IsUnique db'
  Recorded-IsUnique status code db db' r u = rw r.after (record {
    ids = Distinct-snoc same_id db.user_coupon _ u.ids r.id_is_new;
    user_types = Distinct-snoc same_user_type db.user_coupon _ u.user_types r.user_type_is_new;
    codes = Distinct-snoc (same_code db) db.user_coupon _ u.codes r.code_is_new;
  })

  -- Whatever a delivery decides, no user has two rows for a coupon type, and no code stands twice.
  pub Decides-IsUnique :
      (db : Db) (flag : Bool) (db' : Db)
      → Decides request at db flag db'
      → IsUnique db
      → IsUnique db'
  Decides-IsUnique db flag db' (known held f e) u = rw e u
  Decides-IsUnique db flag db' (inactive event found over f r) u =
      Recorded-IsUnique CouponIssueResultStatus.failed none db db' r u
  Decides-IsUnique db flag db' (depleted event row found active at_row empty f r) u =
      Recorded-IsUnique CouponIssueResultStatus.sold_out none db db' r u
  Decides-IsUnique db flag db' (issued event row found active at_row more f r) u =
      Recorded-IsUnique CouponIssueResultStatus.success (some at.code) (taken row db) db' r
        (record { ids = u.ids; user_types = u.user_types; codes = u.codes })
