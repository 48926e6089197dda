-- ===== src/Contract/Lookup.antt =====
-- The two ways in which server-b learns what became of a request: the scheduler asks server-c
-- (user-coupon.client.ts, user-coupon-internal.controller.ts), and the result consumer is told.
use mathlib.Core.Option
use coupon_nestjs.Prelude.{
  ℕ, ℤ, ◌≡◌, ◌↔◌, refl, ◌⊎◌, inl, inr, String, Option, none, some, find?, false, ◌<◌,
}
use coupon_nestjs.Common.Errors.{Exception, query_failed, plain, driver, common, domain, http}
use coupon_nestjs.Common.Filter.{
  catch_exception, internal_error, map_common_error, map_missing_header,
}
use coupon_nestjs.Common.Http.{Reply}
use coupon_nestjs.Common.Statuses.{UserCouponStatus, CouponIssueResultStatus}
use coupon_nestjs.Common.Broker.{Broker}
use coupon_nestjs.Common.Payloads.{CouponIssueRequestPayload, RawIssueResult}
use coupon_nestjs.Effect.{Result, ok, thrown, pure, handled}
use coupon_nestjs.ServerB.Pending.{
  PendingIssue, Pendings, PendingIssueStore, put, concluded, new_code,
}
use coupon_nestjs.ServerB.Pending.Up.{IsUp, mark_result-Answers}
use coupon_nestjs.ServerB.Accept.{Desk, with_pendings}
use coupon_nestjs.ServerB.Results.Concluded.{deliver-concluded}
use coupon_nestjs.ServerB.Scheduler as Scheduler
use coupon_nestjs.ServerB.Scheduler.{UserCouponLookupResult}
use coupon_nestjs.ServerB.Results as Results
use coupon_nestjs.ServerB.Client as Client
use coupon_nestjs.ServerB.Client.{HttpAnswer, answered, failed}
use coupon_nestjs.ServerC.Filter as Filter
use coupon_nestjs.ServerC.Schema.{UserCouponRow, OutboxRow, Db}
use coupon_nestjs.ServerC.Engine.{Engine, Reads, IsFault, has_user_type}
use coupon_nestjs.ServerC.Repositories.{find_by_user_id_and_coupon_type_id}
use coupon_nestjs.ServerC.UserCoupons as UserCoupons
use coupon_nestjs.ServerC.UserCoupons.{UserCouponInternalView}
use coupon_nestjs.ServerC.System.Outbox.{as_reported, reported_code, Reports}

-- What server-b reads of a view.
abbrev pub lookup_of_view : UserCouponInternalView → UserCouponLookupResult
lookup_of_view v = record { status = some v.status; code = some v.code }

-- The answer that a call of server-c's controller gives over HTTP: the filter's status for a throw.
abbrev pub answer_of : (ℕ → Option String) → Exception → Result UserCouponInternalView → HttpAnswer
answer_of status_name error (ok view) = answered (some (lookup_of_view view))
answer_of status_name error (thrown e) =
    let reply : Reply UserCouponInternalView = catch_exception status_name Filter.map_domain e in
    failed (some reply.status) error

abbrev pub lookup_of_row : UserCouponRow → UserCouponLookupResult
lookup_of_row row = record { status = some row.status; code = some row.code }

module _ (status_name : ℕ → Option String) (error : Exception) (text : ℕ → String)
    (em : Engine) where
  -- A failed statement is no 404, so it does not pass for a request that server-c has not seen.
  fault_answer :
      (e : Exception)
      → IsFault e
      → Client.find_one (answer_of status_name error (thrown e)) ≡ thrown error
  unfolding Client.find_one catch_exception Filter.map_domain internal_error map_common_error
      map_missing_header
  fault_answer (query_failed q) h = refl
  fault_answer (driver m) h = refl
  fault_answer (plain m) h = elim h [ ]
  fault_answer (common x) h = elim h [ ]
  fault_answer (domain x) h = elim h [ ]
  fault_answer (http x) h = elim h [ ]

  -- The lookup finds the coupon row of the user and coupon type, and null when there is none, unless
  -- server-c's statement failed: then it throws. Nothing changes.
  pub lookup_lem :
      (u t : ℤ) (db : Db)
      → let out = UserCoupons.find_one text em u t db in
        ((Client.find_one (answer_of status_name error out.0)
            ≡ ok (Option.map lookup_of_row (find? (has_user_type u t) db.user_coupon)))
          × (out.1 ≡ db))
        ⊎ ((e : Exception) × IsFault e
            × (out ≡ (thrown e, db))
            × (Client.find_one (answer_of status_name error out.0) ≡ thrown error))
  unfolding UserCoupons.find_one UserCoupons.find_internal_view find_by_user_id_and_coupon_type_id
      Client.find_one catch_exception Filter.map_domain
  lookup_lem u t db = elim (em.find_coupon_lem u t db) [
    | Reads.fault x f e ↦ rw e (inr (x, f, refl, fault_answer x f))
    | Reads.read none fits e ↦ rw (e, ← fits) (inl (refl, refl))
    | Reads.read (some row) fits e ↦ rw (e, ← fits) (inl (refl, refl))
  ]

Agreement : UserCouponStatus → String → CouponIssueResultStatus → Option String → Type 0
Agreement status code reported reported_with =
    (Scheduler.map_status (some status) ≡ Results.map_status reported)
    × ((some code ≡ reported_with) ↔ (reported ≡ CouponIssueResultStatus.success))

agreement :
    (status : UserCouponStatus) (code : String)
    → Agreement status code (as_reported status) (reported_code (as_reported status) code)
unfolding Results.map_status Agreement
agreement UserCouponStatus.success code = (refl, (λ _. refl, λ _. refl))
agreement UserCouponStatus.used code = (refl, (λ _. refl, λ _. refl))
agreement UserCouponStatus.sold_out code = (refl, (λ h. absurd (cc h), λ h. absurd (cc h)))
agreement UserCouponStatus.failed code = (refl, (λ h. absurd (cc h), λ h. absurd (cc h)))

new_code-none : (code : Option String) → new_code code none ≡ code
new_code-none none = refl
new_code-none (some code) = refl

-- The state that the answer of a caught operation of the store leaves.
caught_pendings :
    {S : Type 0} (d : Desk S) (out : Result (Unit {0}) × S)
    → let caught : Result (Unit {0}) × Desk S = handled (λ _. pure tt) (with_pendings d out) in
      caught.1.pendings ≡ out.1
caught_pendings d (ok _, x) = refl
caught_pendings d (thrown e, x) = refl

module _ {S : Type 0} (store : PendingIssueStore S) (up : IsUp store)
    (broker : Broker CouponIssueRequestPayload) (to_instant_string : ℕ → String) (max now : ℕ)
    (lookup : Scheduler.Lookup) (json_parse : String → Result RawIssueResult) (attempts : ℕ)
    (value : Option String) (c : UserCouponRow) (o : OutboxRow) (p : PendingIssue) (d : Desk S)
    (s : Pendings) where
  -- What the two paths leave of one application.
  pub record SameEnd (scheduled consumed : S) : Type 0 where
    pub by_lookup : PendingIssue
    pub by_report : PendingIssue
    pub looked_up : store.Represents scheduled (put p.user_id p.coupon_type_id by_lookup s)
    pub told : store.Represents consumed (put p.user_id p.coupon_type_id by_report s)
    pub status_same : by_lookup.status ≡ by_report.status
    pub both_left : (by_lookup.queued ≡ false) × (by_report.queued ≡ false)
    pub code_same :
        (by_lookup.code ≡ by_report.code) ↔ (o.payload.status ≡ CouponIssueResultStatus.success)

  -- An application without a code, whose coupon row and report server-c has: the scheduler, which is
  -- told of the row, and the result consumer, which is told of the report, both conclude it in the
  -- store with one and the same status, and it leaves the ZSET, while the store is up. They store the
  -- same code exactly when the coupon was issued (of another row the consumer stores none, and the
  -- scheduler the row's). All other applications are as they were.
  pub paths_agree :
      Reports c o
      → lookup p.user_id p.coupon_type_id ≡ ok (some (lookup_of_row c))
      → Results.parse json_parse value ≡ some o.payload
      → o.payload.user_id ≡ p.user_id
      → o.payload.coupon_type_id ≡ p.coupon_type_id
      → p.code ≡ none
      → 0 < attempts
      → store.Handles p.user_id p.coupon_type_id
      → store.Represents d.pendings s
      → s p.user_id p.coupon_type_id ≡ some p
      → SameEnd
          (Scheduler.attend store broker to_instant_string max lookup now p d).1.pendings
          (Results.deliver json_parse store attempts value d.pendings)
  unfolding Agreement Scheduler.attend
  paths_agree r says reads user coupon_type no_code more handles represents there =
      let same = agreement c.status c.code in
      let marked =
        mark_result-Answers store up p.user_id p.coupon_type_id d.pendings s p handles represents
          there (Scheduler.map_status (lookup_of_row c).status) (some c.code) in
      let delivered =
        deliver-concluded json_parse store up o.payload d.pendings s p attempts value
          (rw (user, coupon_type) handles) represents more reads (rw (user, coupon_type) there) in
      record {
        by_lookup = concluded p (Scheduler.map_status (lookup_of_row c).status) (some c.code);
        by_report = concluded p (Results.map_status o.payload.status) o.payload.coupon_code;
        looked_up = rw (says, caught_pendings d _) (marked.1);
        told = rw (user, coupon_type) at delivered;
        status_same = rw r.status (same.0);
        both_left = (refl, refl);
        code_same = rw (no_code, new_code-none o.payload.coupon_code, r.code, r.status) (same.1);
      }
