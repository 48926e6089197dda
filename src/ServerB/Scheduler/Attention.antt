-- ===== src/ServerB/Scheduler/Attention.antt =====
-- What the scheduler does to one application that waits, while the store is up and server-c answers.
use coupon_nestjs.Prelude.{
  ℕ, ◌≡◌, refl, inl, inr, String, Bool, true, false, Option, none, some, ltb, Bool-cases, int_eq,
}
use coupon_nestjs.Common.Broker.{Broker}
use coupon_nestjs.Common.Statuses.{IssuePendingStatus, UserCouponStatus}
use coupon_nestjs.Common.Payloads.{CouponIssueRequestPayload}
use coupon_nestjs.Effect.{Result, ok, thrown, Async, pure, try_catch}
use coupon_nestjs.ServerB.Pending.{
  PendingIssue, Pendings, PendingIssueStore, put, republished, concluded,
}
use coupon_nestjs.ServerB.Pending.Up.{IsUp, record_republish-Answers, mark_result-Answers}
use coupon_nestjs.ServerB.Publisher.{RequestLog, publish_with_timeout}
use coupon_nestjs.ServerB.Accept.{Desk, on_log, on_pendings}
use coupon_nestjs.ServerB.Scheduler.{
  UserCouponLookupResult, Lookup, map_status, republish_payload, republish, conclude, attend,
}

-- A final status.
abbrev pub is_final : IssuePendingStatus → Bool
is_final IssuePendingStatus.pending = false
is_final IssuePendingStatus.success = true
is_final IssuePendingStatus.sold_out = true
is_final IssuePendingStatus.failed = true

map_status-is_final : (s : Option UserCouponStatus) → is_final (map_status s) ≡ true
map_status-is_final none = refl
map_status-is_final (some UserCouponStatus.success) = refl
map_status-is_final (some UserCouponStatus.sold_out) = refl
map_status-is_final (some UserCouponStatus.failed) = refl
map_status-is_final (some UserCouponStatus.used) = refl

-- A failed send is forgotten, and touches no application.
caught-pendings :
    {S : Type 0} (m : Async RequestLog (Unit {0})) (d : Desk S)
    → let out : Result (Unit {0}) × Desk S = try_catch (on_log m) (λ _. pure tt) d in
      out.1.pendings ≡ d.pendings
caught-pendings {S = S} m d = go (m d.log) refl
  where
    go :
        (x : Result (Unit {0}) × RequestLog)
        → m d.log ≡ x
        → let out : Result (Unit {0}) × Desk S = try_catch (on_log m) (λ _. pure tt) d in
          out.1.pendings ≡ d.pendings
    go (ok a, log) e = rw e
    go (thrown a, log) e = rw e

-- What a step leaves when its failure is forgotten.
abbrev forgiven : {S : Type 0} → Async (Desk S) (Unit {0}) → Desk S → Desk S
forgiven m d = (try_catch m (λ _. pure tt) d).1

forgiven_lem : {S : Type 0} (m : Async (Desk S) (Unit {0})) (d : Desk S) → forgiven m d ≡ (m d).1
forgiven_lem {S = S} m d = go (m d) refl
  where
    go : (x : Result (Unit {0}) × Desk S) → m d ≡ x → forgiven m d ≡ (m d).1
    go (ok a, d') e = rw (forgiven, e)
    go (thrown a, d') e = rw (forgiven, e)

module _ {S : Type 0} (store : PendingIssueStore S) (broker : Broker CouponIssueRequestPayload)
    (to_instant_string : ℕ → String) (max_publish_attempts : ℕ) where
  -- What becomes of an application: it leaves the ZSET with a final status, or one more attempt is
  -- counted, below the cap.
  pub data Becomes (now : ℕ) (p q : PendingIssue) : Type 0 where
    concluding : q.queued ≡ false → is_final q.status ≡ true → Becomes now p q
    counted :
        ltb p.publish_attempts max_publish_attempts ≡ true → q ≡ republished p now → Becomes now p q

  -- The store stands for the same applications but this one.
  pub record Attends (now : ℕ) (p : PendingIssue) (s : Pendings) (d' : Desk S) : Type 0 where
    pub entry : PendingIssue
    pub represented : store.Represents d'.pendings (put p.user_id p.coupon_type_id entry s)
    pub becomes : Becomes now p entry

  module _ (up : IsUp store) where
    module _ (now : ℕ) (p : PendingIssue) (d : Desk S) (s : Pendings)
        (handles : store.Handles p.user_id p.coupon_type_id) (r : store.Represents d.pendings s)
        (there : s p.user_id p.coupon_type_id ≡ some p) where
      republish-Represents :
          store.Represents
            (republish store broker to_instant_string max_publish_attempts p now d).1.pendings
            (put p.user_id p.coupon_type_id (republished p now) s)
      unfolding republish
      republish-Represents =
          let answers =
            record_republish-Answers store up p.user_id p.coupon_type_id d.pendings s p handles r
              there now in
          rw
            (
              answers.0,
              caught-pendings
                  (publish_with_timeout broker
                    (republish_payload store broker to_instant_string max_publish_attempts p))
                  (record d {
                    pendings = (store.record_republish p.user_id p.coupon_type_id now d.pendings).1;
                  }),
            )
            (answers.1)

      mark-Attends :
          (status : IssuePendingStatus) (code : Option String)
          → is_final status ≡ true
          → Attends now p s
              (forgiven (on_pendings (store.mark_result p.user_id p.coupon_type_id status code)) d)
      mark-Attends status code h =
          let answers =
            mark_result-Answers store up p.user_id p.coupon_type_id d.pendings s p handles r there
              status code in
          rw (forgiven, answers.0)
            (record {
              entry = concluded p status code;
              represented = answers.1;
              becomes = concluding refl h;
            })

      conclude-Attends :
          (answer : Option UserCouponLookupResult)
          → Attends now p s (
              forgiven
                (conclude store broker to_instant_string max_publish_attempts p now answer)
                d)
      conclude-Attends (some a) =
          mark-Attends (map_status a.status) a.code (map_status-is_final a.status)
      conclude-Attends none = elim (Bool-cases (ltb p.publish_attempts max_publish_attempts)) [
        | inl below ↦ rw below (
            rw
              (forgiven_lem (republish store broker to_instant_string max_publish_attempts p now) d)
              (record {
                entry = republished p now;
                represented = republish-Represents;
                becomes = counted below refl;
              }))
        | inr reached ↦ rw reached (mark-Attends IssuePendingStatus.failed none refl)
      ]

      pub attend-Attends :
          (lookup : Lookup) (answer : Option UserCouponLookupResult)
          → lookup p.user_id p.coupon_type_id ≡ ok answer
          → Attends now p s
              (attend store broker to_instant_string max_publish_attempts lookup now p d).1
      unfolding attend
      attend-Attends lookup answer says = rw says (conclude-Attends answer)
