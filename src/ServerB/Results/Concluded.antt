-- ===== src/ServerB/Results/Concluded.antt =====
-- A delivered result concludes its application and touches no other.
use coupon_nestjs.Prelude.{ℕ, zero, suc, ◌≡◌, ◌<◌, String, Option, some, arith}
use coupon_nestjs.Common.Payloads.{CouponIssueResultPayload, RawIssueResult}
use coupon_nestjs.Effect.{Result}
use coupon_nestjs.ServerB.Pending.{PendingIssue, Pendings, PendingIssueStore, put, concluded}
use coupon_nestjs.ServerB.Pending.Up.{IsUp, mark_result-Answers}
use coupon_nestjs.ServerB.Results.{map_status, parse, attempt_delivery, deliver}

module _ (json_parse : String → Result RawIssueResult) {S : Type 0} (store : PendingIssueStore S)
    (up : IsUp store) (payload : CouponIssueResultPayload) (x : S) (s : Pendings)
    (p : PendingIssue) where
  attempt-concluded :
      (max attempts : ℕ)
      → store.Handles payload.user_id payload.coupon_type_id
      → store.Represents x s
      → s payload.user_id payload.coupon_type_id ≡ some p
      → 0 < attempts
      → store.Represents (attempt_delivery json_parse store max payload attempts x) (
          put payload.user_id payload.coupon_type_id
            (concluded p (map_status payload.status) payload.coupon_code)
            s)
  unfolding attempt_delivery
  attempt-concluded max zero handles r there more = absurd (omega arith)
  attempt-concluded max (suc attempts) handles r there more =
      let answers =
        mark_result-Answers store up payload.user_id payload.coupon_type_id x s p handles r there
          (map_status payload.status) payload.coupon_code in
      rw (answers.0) (answers.1)

  pub deliver-concluded :
      (max_delivery_attempts : ℕ) (value : Option String)
      → store.Handles payload.user_id payload.coupon_type_id
      → store.Represents x s
      → 0 < max_delivery_attempts
      → parse json_parse value ≡ some payload
      → s payload.user_id payload.coupon_type_id ≡ some p
      → store.Represents (deliver json_parse store max_delivery_attempts value x) (
          put payload.user_id payload.coupon_type_id
            (concluded p (map_status payload.status) payload.coupon_code)
            s)
  unfolding deliver
  deliver-concluded max value handles r more reads there =
      rw reads (attempt-concluded max max handles r there more)
