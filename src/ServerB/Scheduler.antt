-- ===== src/ServerB/Scheduler.antt =====
-- apps/server-b/src/application/pending-issue.scheduler.ts: the sweep over the applications that have
-- waited too long. What server-c answers (`UserCouponClient`) is a parameter.
pub mod Attention
pub mod Convergence
pub mod Sweep
use coupon_nestjs.Prelude.{
  ℕ, ℤ, ltb, ◌+◌, ◌-◌, ◌*◌, String, Bool, true, false, Option, none, some, List, [], ◌∷◌,
  if◌then◌else◌,
}
use coupon_nestjs.Common.Broker.{Broker}
use coupon_nestjs.Common.Statuses.{IssuePendingStatus, UserCouponStatus}
use coupon_nestjs.Common.Payloads.{CouponIssueRequestPayload}
use coupon_nestjs.Effect.{Result, ok, thrown, Async, pure, ◌>>=◌, ◌>>◌, try_catch, lift}
use coupon_nestjs.ServerB.Pending.{PendingIssue, PendingIssueStore}
use coupon_nestjs.ServerB.Publisher.{publish_with_timeout}
use coupon_nestjs.ServerB.Accept.{Desk, on_pendings, on_log}

-- server-c's view of a coupon: any other text than the four statuses, and null, are `none`.
pub record UserCouponLookupResult : Type 0 where
  pub status : Option UserCouponStatus
  pub code : Option String

-- A used coupon was issued.
abbrev pub map_status : Option UserCouponStatus → IssuePendingStatus
map_status (some UserCouponStatus.success) = IssuePendingStatus.success
map_status (some UserCouponStatus.sold_out) = IssuePendingStatus.sold_out
map_status (some UserCouponStatus.used) = IssuePendingStatus.success
map_status (some UserCouponStatus.failed) = IssuePendingStatus.failed
map_status none = IssuePendingStatus.failed

abbrev pub Lookup : Type 0
Lookup = ℤ → ℤ → Result (Option UserCouponLookupResult)

module _ {S : Type 0} (store : PendingIssueStore S) (broker : Broker CouponIssueRequestPayload)
    (to_instant_string : ℕ → String) (max_publish_attempts : ℕ) where
  abbrev pub republish_payload : PendingIssue → CouponIssueRequestPayload
  republish_payload pending = record {
    request_id = pending.request_id;
    user_id = pending.user_id;
    event_id = pending.event_id;
    coupon_type_id = pending.coupon_type_id;
    requested_at = to_instant_string pending.created_at;
  }

  -- The attempt is counted before the publish, whose failure is logged and forgotten.
  unfoldable pub republish : PendingIssue → ℕ → Async (Desk S) (Unit {0})
  republish pending now =
      on_pendings (store.record_republish pending.user_id pending.coupon_type_id now)
      >>= λ attempts.
          try_catch (on_log (publish_with_timeout broker (republish_payload pending)))
            (λ _. pure tt)

  abbrev pub conclude : PendingIssue → ℕ → Option UserCouponLookupResult → Async (Desk S) (Unit {0})
  conclude pending now (some result) = on_pendings (
      store.mark_result pending.user_id pending.coupon_type_id (map_status result.status)
        result.code)
  conclude pending now none =
      if ltb pending.publish_attempts max_publish_attempts
      then republish pending now
      else on_pendings
          (store.mark_result pending.user_id pending.coupon_type_id IssuePendingStatus.failed none)

  -- One entry of the sweep; whatever fails is left to the next cycle.
  unfoldable pub attend : Lookup → ℕ → PendingIssue → Async (Desk S) (Unit {0})
  attend lookup now pending =
      try_catch (lift (lookup pending.user_id pending.coupon_type_id) >>= conclude pending now)
        (λ _. pure tt)

  -- The entries one after another; the n-th one is attended to at `times n`.
  abbrev pub attend_all : Lookup → (ℕ → ℕ) → ℕ → List PendingIssue → Async (Desk S) (Unit {0})
  attend_all lookup times n [] = pure tt
  attend_all lookup times n (pending ∷ pendings) =
      attend lookup (times n) pending >> attend_all lookup times (n + 1) pendings

  -- What a search of the store gives, of the applications that have waited since the cutoff.
  module _ (find_pending_older_than : ℕ → ℕ → Async S (List PendingIssue)) where
    -- `started` is the time at the start of the sweep, far later than 1970 and the cutoff.
    unfoldable pub sweep : ℕ → ℕ → Lookup → ℕ → (ℕ → ℕ) → Async (Desk S) (Unit {0})
    sweep cutoff_seconds batch_size lookup started times d =
        (on_pendings (find_pending_older_than (started - cutoff_seconds * 1000) batch_size)
            >>= attend_all lookup times 0)
          d

    -- A cycle with the scheduler's flag before and after it: nothing runs while another cycle does, and
    -- no exception leaves the cycle.
    unfoldable pub run : ℕ → ℕ → Lookup → ℕ → (ℕ → ℕ) → Bool × Desk S → Bool × Desk S
    run cutoff_seconds batch_size lookup started times (true, d) = (true, d)
    run cutoff_seconds batch_size lookup started times (false, d) =
        (false, (sweep cutoff_seconds batch_size lookup started times d).1)
