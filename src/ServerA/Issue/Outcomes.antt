-- ===== src/ServerA/Issue/Outcomes.antt =====
-- What an issue request comes to, from the sold-out cache to the reply.
use coupon_nestjs.Prelude.{
  ℕ, ℤ, ◌≡◌, refl, String, Bool, true, false, List, some, [], ◌∷◌, ◌++◌, is_some, ◌==◌, nat_eq,
  if◌then◌else◌, ◌↔◌, arith, ◌⊎◌,
}
use coupon_nestjs.Common.Errors.{Exception}
use coupon_nestjs.Common.Cache.{Cache, Redis, Answers}
use coupon_nestjs.Common.Http.{success}
use coupon_nestjs.Common.Statuses.{IssueAcceptanceStatus, IssueRequestStatus}
use coupon_nestjs.Common.Payloads.{IssueAcceptanceResult}
use coupon_nestjs.Effect.{Result, ok, thrown}
use coupon_nestjs.ServerA.RequestLog as RequestLog
use coupon_nestjs.ServerA.RequestLog.{IssueRequest, IssueRequestRow}
use coupon_nestjs.ServerA.Issue.{
  IssueCommand, IssueOutcome, Entrance, map_status, coupon_available, is_sold_out, reply_of,
  to_issue_coupon_view, retry_after_seconds,
}

-- The look at the cache: what Redis says of the key, or that the coupon is not sold out.
pub data Looks (redis : Redis) (e t : ℤ) (cache : Cache) (out : Result Bool × Cache) : Type 0 where
  looked : out ≡ (ok (is_some (cache (coupon_available e t))), cache) → Looks redis e t cache out
  blind :
      (x : Exception)
      → redis.exists (coupon_available e t) cache ≡ (thrown x, cache)
      → out ≡ (ok false, cache)
      → Looks redis e t cache out

exists-beq : (b : Bool) → let n : ℕ = if b then 1 else 0 in (n == 1) ≡ b
exists-beq true = refl
exists-beq false = refl

pub is_sold_out_lem :
    (redis : Redis) (e t : ℤ) (cache : Cache) → Looks redis e t cache (is_sold_out redis e t cache)
unfolding is_sold_out
is_sold_out_lem redis e t cache = elim (redis.exists_lem (coupon_available e t) cache) [
  | Answers.answered a ↦ rw (a, exists-beq (is_some (cache (coupon_available e t)))) (looked refl)
  | Answers.failed x f ↦ rw f (blind x f refl)
]

module _ {B : Type 0} (client : ℤ → ℤ → ℤ → B → IssueAcceptanceResult × B) (command : IssueCommand)
    (request_id : String) (now : ℕ) where
  -- The request that a status makes, with the identifier of its row.
  abbrev pub logged : IssueRequestStatus → ℤ → IssueRequest
  logged status id = record {
    id = some id;
    request_id = request_id;
    user_id = command.user_id;
    event_id = command.event_id;
    coupon_type_id = command.coupon_type_id;
    status = status;
    created_at = now;
  }

  -- The row, with the time of the database.
  abbrev pub row_of : IssueRequestStatus → ℤ → ℕ → IssueRequestRow
  row_of status id created_at = record {
    id = id;
    request_id = request_id;
    user_id = command.user_id;
    event_id = command.event_id;
    coupon_type_id = command.coupon_type_id;
    status = status;
    created_at = created_at;
  }

  -- No row was written, or one whose acknowledgement was lost.
  pub data MayLog (status : IssueRequestStatus) (rows rows' : List IssueRequestRow) : Type 0 where
    unwritten : rows' ≡ rows → MayLog status rows rows'
    written :
        (id : ℤ) (created_at : ℕ)
        → rows' ≡ rows ++ row_of status id created_at ∷ []
        → MayLog status rows rows'

  abbrev pub answer : B → IssueAcceptanceResult × B
  answer b = client command.user_id command.event_id command.coupon_type_id b

  -- The sold-out key is not there, or Redis does not answer whether it is.
  abbrev pub Unseen : Redis → Cache → Type 0
  Unseen redis cache =
      (is_some (cache (coupon_available command.event_id command.coupon_type_id)) ≡ false)
      ⊎ ((x : Exception) × (redis.exists (coupon_available command.event_id command.coupon_type_id)
              cache
            ≡ (thrown x, cache)))

  pub data Issues (redis : Redis) (s : Entrance B) (out : Result IssueOutcome × Entrance B)
      : Type 0 where
    -- Redis has the key: server-b is not called.
    short_circuit :
        (id : ℤ) (created_at : ℕ)
        → is_some (s.cache (coupon_available command.event_id command.coupon_type_id)) ≡ true
        → out ≡ (
          ok (record {
            issue_request = logged IssueRequestStatus.sold_out id;
            downstream_status = IssueAcceptanceStatus.sold_out;
            message = some "coupon sold out";
          }),
          record s { log = s.log ++ row_of IssueRequestStatus.sold_out id created_at ∷ [] },
        )
        → Issues redis s out
    -- The key was not seen: the answer of server-b is passed on, and logged with its status.
    delegated :
        (id : ℤ) (created_at : ℕ)
        → Unseen redis s.cache
        → out ≡ (
          ok (record {
            issue_request = logged (map_status (answer s.downstream).0.status) id;
            downstream_status = (answer s.downstream).0.status;
            message = (answer s.downstream).0.message;
          }),
          record s {
            log = s.log ++ row_of (map_status (answer s.downstream).0.status) id created_at ∷ [];
            downstream = (answer s.downstream).1;
          },
        )
        → Issues redis s out
    -- The INSERT failed in the first case or in the second.
    unlogged_short_circuit :
        (e : Exception) (log : List IssueRequestRow)
        → is_some (s.cache (coupon_available command.event_id command.coupon_type_id)) ≡ true
        → MayLog IssueRequestStatus.sold_out s.log log
        → out ≡ (thrown e, record s { log = log })
        → Issues redis s out
    unlogged_delegated :
        (e : Exception) (log : List IssueRequestRow)
        → Unseen redis s.cache
        → MayLog (map_status (answer s.downstream).0.status) s.log log
        → out ≡ (thrown e, record s { log = log; downstream = (answer s.downstream).1 })
        → Issues redis s out

-- The reply is 503 with `Retry-After` exactly for the downstream status INTERNAL_ERROR, which is the
-- one that the request log has as REJECTED, and in every case it is a successful envelope of the
-- logged request's identifier.
reply_of_lem :
    (o : IssueOutcome)
    → (((reply_of o).status ≡ 503) ↔ (map_status o.downstream_status ≡ IssueRequestStatus.rejected))
      × (((reply_of o).retry_after ≡ some retry_after_seconds) ↔ ((reply_of o).status ≡ 503))
      × ((reply_of o).body ≡ success (to_issue_coupon_view o))
unfolding reply_of map_status
reply_of_lem o = go o.downstream_status refl
  where
    go :
        (status : IssueAcceptanceStatus)
        → o.downstream_status ≡ status
        → (((reply_of o).status ≡ 503)
            ↔ (map_status o.downstream_status ≡ IssueRequestStatus.rejected))
          × (((reply_of o).retry_after ≡ some retry_after_seconds) ↔ ((reply_of o).status ≡ 503))
          × ((reply_of o).body ≡ success (to_issue_coupon_view o))
    go IssueAcceptanceStatus.internal_error e =
        rw e ((λ _. refl, λ _. refl), (λ _. refl, λ _. refl), refl)
    go IssueAcceptanceStatus.accepted e = rw e (
      (λ h. absurd (omega arith), λ h. absurd (cc h)),
      (λ h. absurd (cc h), λ h. absurd (omega arith)),
      refl,
    )
    go IssueAcceptanceStatus.duplicate e = rw e (
      (λ h. absurd (omega arith), λ h. absurd (cc h)),
      (λ h. absurd (cc h), λ h. absurd (omega arith)),
      refl,
    )
    go IssueAcceptanceStatus.sold_out e = rw e (
      (λ h. absurd (omega arith), λ h. absurd (cc h)),
      (λ h. absurd (cc h), λ h. absurd (omega arith)),
      refl,
    )
