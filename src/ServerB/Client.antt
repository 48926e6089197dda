-- ===== src/ServerB/Client.antt =====
-- apps/server-b/src/infrastructure/client/user-coupon.client.ts: what a GET of server-c comes to. The
-- exchange itself is not part of the repository, so its answer is an argument.
use coupon_nestjs.Prelude.{ℕ, Option, none, some, ◌==◌, nat_eq, if◌then◌else◌}
use coupon_nestjs.Common.Errors.{Exception}
use coupon_nestjs.Effect.{Result, ok, thrown}
use coupon_nestjs.ServerB.Scheduler.{UserCouponLookupResult}

-- A body with its `data`, or an exception with the status of its response, if it has one.
pub data HttpAnswer : Type 0 where
  answered : Option UserCouponLookupResult → HttpAnswer
  failed : Option ℕ → Exception → HttpAnswer

abbrev pub unless_not_found : Option ℕ → Exception → Result (Option UserCouponLookupResult)
unless_not_found none e = thrown e
unless_not_found (some status) e = if status == 404 then ok none else thrown e

-- Not found is no failure: server-c has not seen the request yet.
unfoldable pub find_one : HttpAnswer → Result (Option UserCouponLookupResult)
find_one (answered result) = ok result
find_one (failed status e) = unless_not_found status e
