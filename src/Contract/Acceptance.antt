-- ===== src/Contract/Acceptance.antt =====
-- What server-a tells a user of his request (http-coupon-issuing.client.ts), and what server-b has done
-- about it (coupon-issue.controller.ts): the calls of server-a, with their retries, and the filter of
-- server-b between them.
use coupon_nestjs.Prelude.{
  ℕ, ℤ, ◌≡◌, refl, ap, ◌∙◌, ◌⊎◌, inl, inr, String, true, Option, none, some,
}
use coupon_nestjs.Common.Errors.{Exception}
use coupon_nestjs.Common.Broker.{Broker}
use coupon_nestjs.Common.Text.{show_int}
use coupon_nestjs.Common.Statuses.{IssueAcceptanceStatus}
use coupon_nestjs.Common.Http.{Reply}
use coupon_nestjs.Common.Filter.{catch_exception}
use coupon_nestjs.Common.Payloads.{
  CouponIssueRequestPayload, IssueAcceptanceResult, acceptance_accepted, acceptance_duplicate,
}
use coupon_nestjs.Common.Requests.{is_exact}
use coupon_nestjs.Common.Requests.RoundTrip.{read_back}
use coupon_nestjs.Effect.{Result, ok, thrown, continue, pure, ok-inj}
use coupon_nestjs.ServerA.Client.{
  IssueResponsePayload, TimedResult, CallError, Called, error_status, returned, rejected, call,
  fallback, settled, broken_circuit,
}
use coupon_nestjs.ServerA.Client as Client
use coupon_nestjs.ServerA.Client.Trust.{Executes, fallback-status}
use coupon_nestjs.ServerB.Pending.{Pendings, PendingIssue, PendingIssueStore, put, first_pending}
use coupon_nestjs.ServerB.Accept.{Desk}
use coupon_nestjs.ServerB.Accept as Accept
use coupon_nestjs.ServerB.Accept.Outcomes.{Accepts, accept_lem}
use coupon_nestjs.ServerB.Filter as Filter
use coupon_nestjs.ServerB.Controller.{IssueResponseView, to_issue_response}
use coupon_nestjs.ServerB.Controller as Controller

-- The JSON of a view, read back.
abbrev pub payload_of_view : IssueResponseView → IssueResponsePayload
payload_of_view v = record {
  request_id = v.request_id;
  status = some v.status;
  message = v.message;
}

-- The answer that a call of server-b's controller gives over HTTP, after so many milliseconds.
abbrev pub answer_of :
    (ℕ → Option String) → ℕ → Result IssueResponseView → Called (Option IssueResponsePayload × ℕ)
answer_of status_name ms (ok view) = returned (some (payload_of_view view), ms)
answer_of status_name ms (thrown e) =
    let reply : Reply IssueResponseView = catch_exception status_name Filter.map_domain e in
    rejected (error_status reply.status)

viewed_ok :
    {A B S : Type 0} (f : A → B) (out : Result A × S) (a : A)
    → out.0 ≡ ok a
    → continue (λ x. pure (f x)) out ≡ (ok (f a), out.1)
viewed_ok f (ok b, x) a e = ap (λ y. (ok (f y), x)) (ok-inj e)
viewed_ok f (thrown b, x) a e = absurd (cc e)

viewed_thrown :
    {A B S : Type 0} (f : A → B) (out : Result A × S) (ex : Exception)
    → out.0 ≡ thrown ex
    → continue (λ x. pure (f x)) out ≡ (thrown ex, out.1)
viewed_thrown f (ok b, x) ex e = absurd (cc e)
viewed_thrown f (thrown b, x) ex e = let same : b ≡ ex = cc e in ap (λ y. (thrown y, x)) same

-- A user's request, and the calls that server-a may make for it: the n-th one gets an identifier and a
-- time, and finds server-b's desk as other requests have left it.
module _ (status_name : ℕ → Option String) (rounded : ℤ → ℤ) {S : Type 0}
    (store : PendingIssueStore S) (broker : Broker CouponIssueRequestPayload) (u e t : ℤ)
    (ids : ℕ → String) (nows : ℕ → ℕ) (texts : ℕ → String) (ms : ℕ → ℕ) (desks : ℕ → Desk S)
    (applications : ℕ → Pendings) where
  abbrev pub handled : ℕ → Result IssueResponseView × Desk S
  handled n =
      Controller.issue store broker rounded (ids n) (nows n) (texts n) (some (show_int u)) e t
        (desks n)

  pub data Applied (out : IssueAcceptanceResult) : Type 0 where
    unsure : out.status ≡ IssueAcceptanceStatus.internal_error → Applied out
    accepted :
        (n : ℕ)
        → out ≡ acceptance_accepted (ids n)
        → applications n u t ≡ none
        → store.Represents
            (handled n).1.pendings
            (put u t (first_pending (ids n) u e t (nows n)) (applications n))
        → Applied out
    duplicate :
        (n : ℕ) (p : PendingIssue)
        → out ≡ acceptance_duplicate (ids n)
        → applications n u t ≡ some p
        → Applied out

  handled-accept :
      (n : ℕ)
      → is_exact u ≡ true
      → handled n
        ≡ continue
            (λ result. pure (to_issue_response result))
            (Accept.accept store broker (ids n) (nows n) (texts n) u e t (desks n))
  unfolding Controller.issue
  handled-accept n exact = rw ((read_back rounded u "userId" exact).0) refl

  answered-Applied :
      (n : ℕ)
      → is_exact u ≡ true
      → store.Handles u t
      → store.Represents (desks n).pendings (applications n)
      → Applied (settled (call (answer_of status_name (ms n) (handled n).0)))
  unfolding call
  answered-Applied n exact handles r =
      let out = Accept.accept store broker (ids n) (nows n) (texts n) u e t (desks n) in
      elim (accept_lem (ids n) (nows n) (texts n) u e t store broker (desks n) (applications n)
        handles r) [
          | Accepts.accepted absent h stored log ↦
              let now = handled-accept n exact ∙ viewed_ok to_issue_response out _ h in
              rw now (accepted n refl absent (rw now stored))
          | Accepts.duplicate p there h stored log ↦
              rw (handled-accept n exact ∙ viewed_ok to_issue_response out _ h)
                (duplicate n p refl there)
          | Accepts.failed x threw h beside log ↦
              rw (handled-accept n exact ∙ viewed_thrown to_issue_response out x h)
                (unsure (fallback-status (error_status _)))
        ]

  -- Whatever the policy makes of the calls, by what cockatiel documents of it, and whichever answers
  -- are lost on the way, the result of server-a's client is ACCEPTED only if a call stored the first
  -- application of the user for the coupon type, under the identifier in the result, and DUPLICATE only
  -- if a call found one; otherwise it is INTERNAL_ERROR. (The identifier that the user is told is
  -- server-a's own, of its request log.)
  pub issue-Applied :
      (policy : (ℕ → Called TimedResult) → Called TimedResult)
      (answers : ℕ → Called (Option IssueResponsePayload × ℕ))
      → Executes policy
      → ((n : ℕ)
          → (answers n ≡ answer_of status_name (ms n) (handled n).0)
            ⊎ ((x : CallError) × (answers n ≡ rejected x)))
      → is_exact u ≡ true
      → store.Handles u t
      → ((n : ℕ) → store.Represents (desks n).pendings (applications n))
      → Applied (Client.issue policy answers)
  unfolding Client.issue call
  issue-Applied policy answers executes arrive exact handles r =
      elim (executes λ n. call (answers n)) [
        | inr broken ↦ rw broken (unsure (fallback-status broken_circuit))
        | inl (n, given) ↦ elim (arrive n) [
          | inl arrived ↦ rw (given, arrived) (answered-Applied n exact handles (r n))
          | inr (x, lost) ↦ rw (given, lost) (unsure (fallback-status x))
        ]
      ]
