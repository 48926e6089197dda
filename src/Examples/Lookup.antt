-- ===== src/Examples/Lookup.antt =====
-- What server-b learns of the coupon of the redeem examples, and an identifier on its way.
use mathlib.Core.Option
use coupon_nestjs.Prelude.{pos, negsuc, ◌≡◌, refl, ◌⊎◌, none, some, find?}
use coupon_nestjs.Common.Errors.{Exception, plain}
use coupon_nestjs.Common.Text.{show_int}
use coupon_nestjs.Common.Requests.{user_id_of, parse_long}
use coupon_nestjs.Common.Requests.RoundTrip.{read_back}
use coupon_nestjs.Common.Statuses.{CouponIssueResultStatus, OutboxEventStatus}
use coupon_nestjs.Effect.{ok, thrown}
use coupon_nestjs.ServerB.Client as Client
use coupon_nestjs.ServerC.Schema.{OutboxRow}
use coupon_nestjs.ServerC.Engine.{IsFault, has_user_type}
use coupon_nestjs.ServerC.UserCoupons as UserCoupons
use coupon_nestjs.Contract.Lookup.{answer_of, lookup_of_row, lookup_lem}
use coupon_nestjs.Examples.Memory.{memory_engine}
use coupon_nestjs.Examples.Redeeming.{coupon_db}

lookup_lem_example :
    let out = UserCoupons.find_one (λ n. "t") memory_engine (pos 7) (pos 20) coupon_db in
    ((Client.find_one (answer_of (λ status. none) (plain "AxiosError") out.0)
        ≡ ok (
            Option.map lookup_of_row
              (find? (has_user_type (pos 7) (pos 20)) coupon_db.user_coupon)))
      × (out.1 ≡ coupon_db))
    ⊎ ((e : Exception) × IsFault e
        × (out ≡ (thrown e, coupon_db))
        × (Client.find_one (answer_of (λ status. none) (plain "AxiosError") out.0)
            ≡ thrown (plain "AxiosError")))
lookup_lem_example =
    lookup_lem (λ status. none) (plain "AxiosError") (λ n. "t") memory_engine (pos 7) (pos 20)
      coupon_db

abbrev pub reported : OutboxRow
reported = record {
  outbox_event_id = pos 1;
  aggregate_id = "aaaaaaaa-bbbb-cccc-dddd-eeeeeeeeeeee";
  event_type = "CouponIssueResult";
  payload = record {
    request_id = "aaaaaaaa-bbbb-cccc-dddd-eeeeeeeeeeee";
    user_id = pos 7;
    event_id = pos 10;
    coupon_type_id = pos 20;
    status = CouponIssueResultStatus.success;
    coupon_code = some "ABCDEFGH0123";
    processed_at = "2026-01-01T00:00:01Z";
  };
  status = OutboxEventStatus.pending;
  created_at = 200;
  published_at = none;
}

read_back_example :
    (user_id_of (λ n. n) (some (show_int (negsuc 41))) ≡ ok (negsuc 41))
    × (parse_long (λ n. n) (some "couponTypeId") (some (show_int (negsuc 41))) ≡ ok (negsuc 41))
read_back_example = read_back (λ n. n) (negsuc 41) "couponTypeId" refl
