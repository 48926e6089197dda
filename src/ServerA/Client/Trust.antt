-- ===== src/ServerA/Client/Trust.antt =====
-- What server-a may tell a user of server-b's answer, whatever becomes of the calls.
use coupon_nestjs.Prelude.{ℕ, ◌≡◌, refl, ◌⊎◌, inl, inr, Option, none, some}
use coupon_nestjs.Common.Statuses.{IssueAcceptanceStatus}
use coupon_nestjs.Common.Payloads.{IssueAcceptanceResult}
use coupon_nestjs.ServerA.Client.{
  IssueResponsePayload, TimedResult, CallError, Called, broken_circuit, error_status, other,
  returned, rejected, result_of_status, call, fallback, settled, issue,
}

-- What cockatiel documents of `execute`: it gives what one of the calls gave, the last one, or rejects
-- without a call while the breaker is open.
abbrev pub Executes : ((ℕ → Called TimedResult) → Called TimedResult) → Type 0
Executes policy =
    (calls : ℕ → Called TimedResult)
    → ((n : ℕ) × (policy calls ≡ calls n)) ⊎ (policy calls ≡ rejected broken_circuit)

-- The result is INTERNAL_ERROR, or what a body says.
abbrev Trusted : Called (Option IssueResponsePayload × ℕ) → IssueAcceptanceResult → Type 0
Trusted answer out =
    (out.status ≡ IssueAcceptanceStatus.internal_error)
    ⊎ ((body : IssueResponsePayload) × (elapsed_ms : ℕ) × (answer
          ≡ returned (some body, elapsed_ms))
        × (body.status ≡ some out.status)
        × (out.request_id ≡ body.request_id)
        × (out.message ≡ body.message))

pub fallback-status : (e : CallError) → (fallback e).status ≡ IssueAcceptanceStatus.internal_error
unfolding fallback
fallback-status broken_circuit = refl
fallback-status (error_status n) = refl
fallback-status (other name) = refl

result_of_status-Trusted :
    (body : IssueResponsePayload) (ms : ℕ) (status : Option IssueAcceptanceStatus)
    → body.status ≡ status
    → Trusted (returned (some body, ms)) (result_of_status body status)
result_of_status-Trusted body ms none e = inl refl
result_of_status-Trusted body ms (some status) e = inr (body, ms, refl, e, refl, refl)

settled-Trusted :
    (answer : Called (Option IssueResponsePayload × ℕ)) → Trusted answer (settled (call answer))
unfolding call
settled-Trusted (rejected e) = inl (fallback-status e)
settled-Trusted (returned (none, ms)) = inl refl
settled-Trusted (returned (some body, ms)) = result_of_status-Trusted body ms body.status refl

-- Whatever the policy makes of the calls, by what cockatiel documents of it, the result of the client
-- is INTERNAL_ERROR, or one call was answered by a body with that very status, request and message: no
-- request is reported as accepted, sold out or a duplicate that server-b did not report so.
issue-Trusted :
    (policy : (ℕ → Called TimedResult) → Called TimedResult)
    (answers : ℕ → Called (Option IssueResponsePayload × ℕ))
    → Executes policy
    → (n : ℕ) × Trusted (answers n) (issue policy answers)
unfolding issue
issue-Trusted policy answers executes = elim (executes λ n. call (answers n)) [
  | inl (n, e) ↦ (n, rw e (settled-Trusted (answers n)))
  | inr e ↦ (0, inl (rw e (fallback-status broken_circuit)))
]
