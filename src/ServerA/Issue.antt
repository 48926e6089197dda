-- ===== src/ServerA/Issue.antt =====
-- apps/server-a/src: the issue request, from the controller down to the request log, with the
-- reading side of the sold-out cache.
pub mod Outcomes
use coupon_nestjs.Prelude.{
  ℕ, ℤ, ◌≡◌, String, Bool, true, false, Option, none, some, List, [], ◌∷◌, ◌++◌, ◌==◌, nat_eq,
  if◌then◌else◌,
}
use coupon_nestjs.Common.Errors.{Exception}
use coupon_nestjs.Common.Text.{◌<+>◌, show_int}
use coupon_nestjs.Common.Cache.{Cache, Redis}
use coupon_nestjs.Common.Http.{ApiResponse, Reply, success}
use coupon_nestjs.Common.Statuses.{IssueAcceptanceStatus, IssueRequestStatus}
use coupon_nestjs.Common.Payloads.{IssueAcceptanceResult}
use coupon_nestjs.ServerA.RequestLog as RequestLog
use coupon_nestjs.ServerA.RequestLog.{IssueRequest, IssueRequestRow, RequestTable}
use coupon_nestjs.Effect.{Result, ok, thrown, Async, pure, ◌>>=◌, try_catch}

pub record IssueCommand : Type 0 where
  pub user_id : ℤ
  pub event_id : ℤ
  pub coupon_type_id : ℤ

pub record IssueOutcome : Type 0 where
  pub issue_request : IssueRequest
  pub downstream_status : IssueAcceptanceStatus
  pub message : Option String

abbrev pub is_internal_error : IssueAcceptanceStatus → Bool
is_internal_error IssueAcceptanceStatus.internal_error = true
is_internal_error IssueAcceptanceStatus.accepted = false
is_internal_error IssueAcceptanceStatus.duplicate = false
is_internal_error IssueAcceptanceStatus.sold_out = false

abbrev pub is_downstream_unavailable : IssueOutcome → Bool
is_downstream_unavailable o = is_internal_error o.downstream_status

-- The status in the request log for what server-b answered.
unfoldable pub map_status : IssueAcceptanceStatus → IssueRequestStatus
map_status IssueAcceptanceStatus.accepted = IssueRequestStatus.accepted
map_status IssueAcceptanceStatus.duplicate = IssueRequestStatus.duplicate
map_status IssueAcceptanceStatus.sold_out = IssueRequestStatus.sold_out
map_status IssueAcceptanceStatus.internal_error = IssueRequestStatus.rejected

-- The key that server-c writes.
unfoldable pub coupon_available : ℤ → ℤ → String
coupon_available event_id coupon_type_id =
    "coupon:available:" <+> show_int event_id <+> ":" <+> show_int coupon_type_id

-- An unreadable cache says that the coupon is not sold out.
unfoldable pub is_sold_out : Redis → ℤ → ℤ → Async Cache Bool
is_sold_out redis event_id coupon_type_id =
    try_catch
      (do exists ← redis.exists (coupon_available event_id coupon_type_id); pure (exists == 1))
      (λ _. pure false)

-- The table of the request log, the Redis that the servers share, and what lies behind the client of server-b,
-- whose calls never throw.
pub record Entrance (B : Type 0) : Type 0 where
  pub log : List IssueRequestRow
  pub cache : Cache
  pub downstream : B

module _ {B : Type 0} (table : RequestTable) (redis : Redis)
    (client : ℤ → ℤ → ℤ → B → IssueAcceptanceResult × B) where
  -- `randomUUID()` and `new Date()` are given.
  module _ (command : IssueCommand) (request_id : String) (now : ℕ) where
    abbrev pub issue_request_of : IssueRequestStatus → IssueRequest
    issue_request_of status = record {
      id = none;
      request_id = request_id;
      user_id = command.user_id;
      event_id = command.event_id;
      coupon_type_id = command.coupon_type_id;
      status = status;
      created_at = now;
    }

    abbrev pub with_log :
        Entrance B → Result IssueRequest × List IssueRequestRow → Result IssueRequest × Entrance B
    with_log s (r, log) = (r, record s { log = log })

    unfoldable pub save : IssueRequestStatus → Async (Entrance B) IssueRequest
    save status s = with_log s (RequestLog.save table (issue_request_of status) s.log)

    abbrev outcome_of : IssueAcceptanceStatus → Option String → IssueRequest → IssueOutcome
    outcome_of status message request = record {
      issue_request = request;
      downstream_status = status;
      message = message;
    }

    unfoldable pub issue_downstream : Async (Entrance B) IssueOutcome
    issue_downstream s =
        let (result, downstream) =
          client command.user_id command.event_id command.coupon_type_id s.downstream in
        (save (map_status result.status) >>= λ request.
        pure (outcome_of result.status result.message request))
          (record s { downstream = downstream })

    unfoldable pub issue_sold_out : Async (Entrance B) IssueOutcome
    issue_sold_out = do
      request ← save IssueRequestStatus.sold_out
      pure (outcome_of IssueAcceptanceStatus.sold_out (some "coupon sold out") request)

    abbrev pub after_look : Result Bool × Cache → Entrance B → Result IssueOutcome × Entrance B
    after_look (ok sold_out, cache) s =
        let seen = record s { cache = cache } in
        if sold_out then issue_sold_out seen else issue_downstream seen
    after_look (thrown e, cache) s = (thrown e, record s { cache = cache })

    unfoldable pub issue : Async (Entrance B) IssueOutcome
    issue s = after_look (is_sold_out redis command.event_id command.coupon_type_id s.cache) s

pub record IssueCouponView : Type 0 where
  pub request_id : String
  pub status : IssueAcceptanceStatus
  pub message : Option String

abbrev pub to_issue_coupon_view : IssueOutcome → IssueCouponView
to_issue_coupon_view o = record {
  request_id = o.issue_request.request_id;
  status = o.downstream_status;
  message = o.message;
}

abbrev pub retry_after_seconds : String
retry_after_seconds = "5"

-- What the controller makes of an outcome.
unfoldable pub reply_of : IssueOutcome → Reply IssueCouponView
reply_of outcome =
    if is_downstream_unavailable outcome
    then record {
      status = 503;
      retry_after = some retry_after_seconds;
      body = success (to_issue_coupon_view outcome);
    }
    else record { status = 200; retry_after = none; body = success (to_issue_coupon_view outcome) }
