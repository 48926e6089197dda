-- ===== src/ServerA/Client.antt =====
-- apps/server-a/src/infrastructure/client/http-coupon-issuing.client.ts: the call of server-b. The
-- HTTP exchange and cockatiel's circuit breaker with its retry are not part of the repository, so what
-- `policy.execute` makes of the calls is a parameter.
pub mod Trust
use coupon_nestjs.Prelude.{ℕ, String, Option, none, some, Bool, ltb}
use coupon_nestjs.Common.Text.{◌<+>◌, show_nat}
use coupon_nestjs.Common.Statuses.{IssueAcceptanceStatus}
use coupon_nestjs.Common.Payloads.{IssueAcceptanceResult, acceptance_internal_error}

-- The body of server-b's answer, whose fields may be missing.
pub record IssueResponsePayload : Type 0 where
  pub request_id : Option String
  pub status : Option IssueAcceptanceStatus
  pub message : Option String

pub record TimedResult : Type 0 where
  pub elapsed_ms : ℕ
  pub result : IssueAcceptanceResult

-- What `policy.execute` may throw: the breaker is open, an answer with an error status, or anything
-- else with its class name.
pub data CallError : Type 0 where
  broken_circuit : CallError
  error_status : ℕ → CallError
  other : String → CallError

pub data Called (A : Type 0) : Type 0 where
  returned : A → Called A
  rejected : CallError → Called A

abbrev pub result_of_status :
    IssueResponsePayload → Option IssueAcceptanceStatus → IssueAcceptanceResult
result_of_status body none = acceptance_internal_error "empty-response"
result_of_status body (some status) = record {
  request_id = body.request_id;
  status = status;
  message = body.message;
}

abbrev result_of_body : Option IssueResponsePayload → IssueAcceptanceResult
result_of_body none = acceptance_internal_error "empty-response"
result_of_body (some body) = result_of_status body body.status

-- One call: the body and the time it took, or the rejection.
unfoldable pub call : Called (Option IssueResponsePayload × ℕ) → Called TimedResult
call (returned (body, elapsed_ms)) =
    returned (record { elapsed_ms = elapsed_ms; result = result_of_body body })
call (rejected error) = rejected error

-- Whether the breaker counts the answer as a failure; the answer is returned all the same.
abbrev pub is_slow : ℕ → TimedResult → Bool
is_slow slow_call_threshold_ms r = ltb slow_call_threshold_ms r.elapsed_ms

unfoldable pub fallback : CallError → IssueAcceptanceResult
fallback broken_circuit = acceptance_internal_error "circuit-open"
fallback (error_status status) = acceptance_internal_error ("server-b-status:" <+> show_nat status)
fallback (other name) = acceptance_internal_error ("downstream-error:" <+> name)

abbrev pub settled : Called TimedResult → IssueAcceptanceResult
settled (returned timed) = timed.result
settled (rejected error) = fallback error

-- `policy` is `execute`: it takes the answers of the calls, by their number, and gives one result.
unfoldable pub issue :
    ((ℕ → Called TimedResult) → Called TimedResult)
    → (ℕ → Called (Option IssueResponsePayload × ℕ))
    → IssueAcceptanceResult
issue policy answers = settled (policy (λ n. call (answers n)))
