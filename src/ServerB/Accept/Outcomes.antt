-- ===== src/ServerB/Accept/Outcomes.antt =====
-- What an acceptance comes to.
use coupon_nestjs.Prelude.{
  ℕ, ℤ, ◌≡◌, refl, ◌⊎◌, inl, inr, String, Bool, not, none, some, is_some, Option-cases, [], ◌∷◌,
  ◌++◌, ap, ◌∙◌,
}
use coupon_nestjs.Common.Errors.{Exception}
use coupon_nestjs.Common.Broker.{Broker, Sends}
use coupon_nestjs.Common.Payloads.{
  CouponIssueRequestPayload, IssueAcceptanceResult, acceptance_accepted, acceptance_duplicate,
  raw_of, CheckedRequest, assert_issue_request_payload,
}
use coupon_nestjs.Common.Payloads.Checks.{IsValid, valid-passes}
use coupon_nestjs.Effect.{Result, ok, thrown, continue}
use coupon_nestjs.ServerB.Pending.{
  PendingIssue, Pendings, PendingIssueStore, Follows, done, broken, put, saved, first_pending,
}
use coupon_nestjs.ServerB.Publisher.{RequestLog, request_message, publish_with_timeout}
use coupon_nestjs.ServerB.Accept.{
  Desk, with_pendings, payload_of, accept, accepted_after_publish, after_write,
}

-- The payload is not valid, or the broker throws and does not take the message.
abbrev pub Untaken :
    Broker CouponIssueRequestPayload → CouponIssueRequestPayload → RequestLog → Type 0
Untaken broker payload log =
    (¬ (IsValid payload))
    ⊎ ((x : Exception) × (broker.send (request_message payload) log ≡ (thrown x, log)))

-- What a publish leaves in the topic: the message, once, or nothing, if the payload is not valid or the
-- broker did not take it.
pub data Publishes (broker : Broker CouponIssueRequestPayload) (payload : CouponIssueRequestPayload)
    (log : RequestLog) (out : Result (Unit {0}) × RequestLog) : Type 0 where
  published : out.1 ≡ log ++ request_message payload ∷ [] → Publishes broker payload log out
  unpublished : Untaken broker payload log → out.1 ≡ log → Publishes broker payload log out

pub publish_with_timeout_lem :
    (broker : Broker CouponIssueRequestPayload) (payload : CouponIssueRequestPayload)
    (log : RequestLog)
    → Publishes broker payload log (publish_with_timeout broker payload log)
unfolding publish_with_timeout
publish_with_timeout_lem broker payload log =
    go (assert_issue_request_payload (raw_of payload)) refl
  where
    go :
        (checked : Result CheckedRequest)
        → assert_issue_request_payload (raw_of payload) ≡ checked
        → Publishes broker payload log (publish_with_timeout broker payload log)
    go (thrown e) h = rw h (unpublished (inl λ v. absurd (cc (h, valid-passes payload v))) refl)
    go (ok p) h = elim (broker.send_lem (request_message payload) log) [
      | Sends.acknowledged e ↦ rw (h, e) (published refl)
      | Sends.unacknowledged x e ↦ rw (h, e) (published refl)
      | Sends.failed x e ↦ rw (h, e) (unpublished (inr (x, e)) refl)
    ]

module _ (request_id : String) (now : ℕ) (now_text : String) (u e t : ℤ) where
  module _ {S : Type 0} (store : PendingIssueStore S)
      (broker : Broker CouponIssueRequestPayload) where
    pub data Accepts (d : Desk S) (s : Pendings) (out : Result IssueAcceptanceResult × Desk S)
        : Type 0 where
      -- The application is stored; the scheduler finds it if the message did not get through.
      accepted :
          s u t ≡ none
          → out.0 ≡ ok (acceptance_accepted request_id)
          → store.Represents out.1.pendings (put u t (first_pending request_id u e t now) s)
          → (Untaken broker
                (record {
                  request_id = request_id;
                  user_id = u;
                  event_id = e;
                  coupon_type_id = t;
                  requested_at = now_text;
                })
                d.log
              × (out.1.log ≡ d.log))
            ⊎ (out.1.log
                ≡ d.log
                  ++ request_message (record {
                    request_id = request_id;
                    user_id = u;
                    event_id = e;
                    coupon_type_id = t;
                    requested_at = now_text;
                  })
                    ∷ [])
          → Accepts d s out
      duplicate :
          (p : PendingIssue)
          → s u t ≡ some p
          → out.0 ≡ ok (acceptance_duplicate request_id)
          → store.Represents out.1.pendings s
          → out.1.log ≡ d.log
          → Accepts d s out
      failed :
          (x : Exception)
          → (store.save_pending_if_absent request_id u e t now d.pendings).0 ≡ thrown x
          → out.0 ≡ thrown x
          → store.Besides u t out.1.pendings s
          → out.1.log ≡ d.log
          → Accepts d s out

    module _ where
      abbrev payload : CouponIssueRequestPayload
      payload = payload_of store broker request_id now now_text u e t

      publish-Accepts :
          (d : Desk S) (x : S) (s : Pendings)
          → s u t ≡ none
          → store.Represents x (put u t (first_pending request_id u e t now) s)
          → Accepts d s (
              accepted_after_publish store broker request_id now now_text u e t
                (record d { pendings = x }))
      publish-Accepts d x s absent stored =
          go (publish_with_timeout broker payload d.log) refl
            (publish_with_timeout_lem broker payload d.log)
        where
          go :
              (out : Result (Unit {0}) × RequestLog)
              → publish_with_timeout broker payload d.log ≡ out
              → Publishes broker payload d.log (publish_with_timeout broker payload d.log)
              → Accepts d s (
                  accepted_after_publish store broker request_id now now_text u e t
                    (record d { pendings = x }))
          go (ok a, log) h (published l) = rw h (accepted absent refl stored (inr (rw h at l)))
          go (ok a, log) h (unpublished untaken l) =
              rw h (accepted absent refl stored (inl (untaken, rw h at l)))
          go (thrown a, log) h (published l) = rw h (accepted absent refl stored (inr (rw h at l)))
          go (thrown a, log) h (unpublished untaken l) =
              rw h (accepted absent refl stored (inl (untaken, rw h at l)))

      -- The call after what the store answered.
      answered-Accepts :
          (d : Desk S) (s : Pendings) (saving : Result Bool × S)
          → store.save_pending_if_absent request_id u e t now d.pendings ≡ saving
          → Follows store.Represents
              (store.Besides u t)
              s
              (saved (s u t) (first_pending request_id u e t now) s)
              (not (is_some (s u t)))
              saving
          → Accepts d s (
              continue
                (after_write store broker request_id now now_text u e t)
                (with_pendings d saving))
      answered-Accepts d s (r, x) saves (broken ex e beside) =
          rw e (failed ex (ap (λ p. p.0) saves ∙ e) refl beside refl)
      answered-Accepts d s (r, x) saves (done e stored) = elim (Option-cases (s u t)) [
        | inl absent ↦ rw (e, absent) (publish-Accepts d x s absent (rw absent at stored))
        | inr (p, there) ↦ rw (e, there) (duplicate p there refl (rw there at stored) refl)
      ]

      -- Every acceptance, of identifiers that the store handles, on a store of some applications:
      -- ACCEPTED exactly when the application is stored for the first time, and its message is then once
      -- in the topic unless the payload is not valid or the broker did not take it; DUPLICATE, with the same applications, when there is one; it throws only
      -- what the store threw, nothing is published, and no other application is touched.
      pub accept_lem :
          (d : Desk S) (s : Pendings)
          → store.Handles u t
          → store.Represents d.pendings s
          → Accepts d s (accept store broker request_id now now_text u e t d)
      unfolding accept
      accept_lem d s handles r =
          answered-Accepts d s (store.save_pending_if_absent request_id u e t now d.pendings) refl
            (store.save_pending_if_absent_lem request_id u e t now d.pendings s handles r)
