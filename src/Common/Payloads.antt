-- ===== src/Common/Payloads.antt =====
-- libs/common/src/coupon/payloads.ts: the Kafka messages, with the checks of the original's record
-- constructors, and the acceptance results. Identifiers are integers.
pub mod Checks
use coupon_nestjs.Prelude.{
  ℤ, is_positive, String, Bool, true, false, Option, none, some, if◌then◌else◌,
}
use coupon_nestjs.Common.Errors.{Exception, common, plain, driver, invalid_argument}
use coupon_nestjs.Common.Text.{◌<+>◌, show_int, is_blank}
use coupon_nestjs.Common.Statuses.{IssueAcceptanceStatus, CouponIssueResultStatus}
use coupon_nestjs.Effect.{Result, ok, thrown}

-- server-b to server-c, topic `coupon-issue-request`.
pub record CouponIssueRequestPayload : Type 0 where
  pub request_id : String
  pub user_id : ℤ
  pub event_id : ℤ
  pub coupon_type_id : ℤ
  pub requested_at : String

-- server-c to server-b, topic `coupon-issue-result`.
pub record CouponIssueResultPayload : Type 0 where
  pub request_id : String
  pub user_id : ℤ
  pub event_id : ℤ
  pub coupon_type_id : ℤ
  pub status : CouponIssueResultStatus
  pub coupon_code : Option String
  pub processed_at : String

pub record IssueAcceptanceResult : Type 0 where
  pub request_id : Option String
  pub status : IssueAcceptanceStatus
  pub message : Option String

-- What `JSON.parse` may give for a field that is to be a number: nothing (or null), an integer, or a
-- value of another kind (a text, a fraction, a list), with what JavaScript says of `value > 0`.
pub data RawNumber : Type 0 where
  absent : RawNumber
  integer : ℤ → RawNumber
  other : (positive : Bool) → RawNumber

-- The same for a field that is to be a text.
pub data RawText : Type 0 where
  unset : RawText
  string : String → RawText
  not_string : RawText

-- What `JSON.parse` may give where a request payload is expected.
pub record RawIssueRequest : Type 0 where
  pub request_id : RawText
  pub user_id : RawNumber
  pub event_id : RawNumber
  pub coupon_type_id : RawNumber
  pub requested_at : RawText

-- What the check lets through has the type of a payload in the code, but may have values of other kinds.
pub data CheckedRequest : Type 0 where
  typed : CouponIssueRequestPayload → CheckedRequest
  mistyped : RawIssueRequest → CheckedRequest

abbrev pub raw_of : CouponIssueRequestPayload → RawIssueRequest
raw_of p = record {
  request_id = string p.request_id;
  user_id = integer p.user_id;
  event_id = integer p.event_id;
  coupon_type_id = integer p.coupon_type_id;
  requested_at = string p.requested_at;
}

abbrev invalid : String → Exception
invalid message = common (invalid_argument message)

-- `if (x == null) throw new Error(name)`
abbrev require_non_null : Option String → String → Result String
require_non_null none name = thrown (plain name)
require_non_null (some x) name = ok x

abbrev require_not_blank : String → Result (Unit {0})
require_not_blank s = if is_blank s then thrown (invalid "requestId must not be blank") else ok tt

-- `if (!(n > 0)) throw …`; the text of a missing number is not a matter of the contract.
abbrev pub require_positive : String → RawNumber → Result (Unit {0})
require_positive name absent = thrown (invalid (name <+> " must be positive: undefined"))
require_positive name (integer n) =
    if is_positive n
    then ok tt
    else thrown (invalid (name <+> " must be positive: " <+> show_int n))
require_positive name (other true) = ok tt
require_positive name (other false) = thrown (invalid (name <+> " must be positive"))

-- `requestId` is looked at before it is trimmed; what has no `trim` throws.
abbrev pub require_request_id : RawText → Result (Unit {0})
require_request_id unset = thrown (plain "requestId")
require_request_id (string s) = require_not_blank s
require_request_id not_string = thrown (driver "p.requestId.trim is not a function")

abbrev pub require_set : RawText → String → Result (Unit {0})
require_set unset name = thrown (plain name)
require_set (string s) name = ok tt
require_set not_string name = ok tt

-- The kinds of the values that were let through.
abbrev pub kinds_of :
    RawIssueRequest → RawText → RawNumber → RawNumber → RawNumber → RawText → CheckedRequest
kinds_of raw (string r) (integer u) (integer e) (integer t) (string at) =
    typed
      (record { request_id = r; user_id = u; event_id = e; coupon_type_id = t; requested_at = at })
kinds_of raw r u e t at = mistyped raw

infixl 5 ◌>>=◌
abbrev pub ◌>>=◌ {ℓ κ} : {A : Type ℓ} {B : Type κ} → Result A → (A → Result B) → Result B
ok a >>= f = f a
thrown e >>= f = thrown e

-- The checks in the order of the code.
unfoldable pub assert_issue_request_payload : RawIssueRequest → Result CheckedRequest
assert_issue_request_payload p = do
  _ ← require_request_id p.request_id
  _ ← require_positive "userId" p.user_id
  _ ← require_positive "eventId" p.event_id
  _ ← require_positive "couponTypeId" p.coupon_type_id
  _ ← require_set p.requested_at "requestedAt"
  ok (kinds_of p p.request_id p.user_id p.event_id p.coupon_type_id p.requested_at)

-- `IssueAcceptance`
abbrev pub acceptance_accepted : String → IssueAcceptanceResult
acceptance_accepted request_id = record {
  request_id = some request_id;
  status = IssueAcceptanceStatus.accepted;
  message = none;
}

abbrev pub acceptance_duplicate : String → IssueAcceptanceResult
acceptance_duplicate request_id = record {
  request_id = some request_id;
  status = IssueAcceptanceStatus.duplicate;
  message = some "already requested for this coupon type";
}

abbrev pub acceptance_internal_error : String → IssueAcceptanceResult
acceptance_internal_error reason = record {
  request_id = none;
  status = IssueAcceptanceStatus.internal_error;
  message = some reason;
}

-- A status text: one of the three, or another one.
pub data ResultStatusText : Type 0 where
  known : CouponIssueResultStatus → ResultStatusText
  unknown : String → ResultStatusText

-- What `JSON.parse` may give where a result payload is expected.
pub record RawIssueResult : Type 0 where
  pub request_id : Option String
  pub user_id : ℤ
  pub event_id : ℤ
  pub coupon_type_id : ℤ
  pub status : Option ResultStatusText
  pub coupon_code : Option String
  pub processed_at : Option String

abbrev pub raw_result_of : CouponIssueResultPayload → RawIssueResult
raw_result_of p = record {
  request_id = some p.request_id;
  user_id = p.user_id;
  event_id = p.event_id;
  coupon_type_id = p.coupon_type_id;
  status = some (known p.status);
  coupon_code = p.coupon_code;
  processed_at = some p.processed_at;
}

abbrev require_status : Option ResultStatusText → Result CouponIssueResultStatus
require_status none = thrown (plain "status")
require_status (some (unknown s)) = thrown (plain ("unknown status: " <+> s))
require_status (some (known s)) = ok s

-- A coupon code goes with every success.
abbrev require_code : CouponIssueResultStatus → Option String → Result (Unit {0})
require_code CouponIssueResultStatus.success none = thrown (plain "couponCode (status=SUCCESS)")
require_code CouponIssueResultStatus.success (some code) = ok tt
require_code CouponIssueResultStatus.sold_out code = ok tt
require_code CouponIssueResultStatus.failed code = ok tt

unfoldable pub assert_issue_result_payload : RawIssueResult → Result CouponIssueResultPayload
assert_issue_result_payload p = do
  request_id ← require_non_null p.request_id "requestId"
  status ← require_status p.status
  _ ← require_code status p.coupon_code
  processed_at ← require_non_null p.processed_at "processedAt"
  ok (record {
    request_id = request_id;
    user_id = p.user_id;
    event_id = p.event_id;
    coupon_type_id = p.coupon_type_id;
    status = status;
    coupon_code = p.coupon_code;
    processed_at = processed_at;
  })
