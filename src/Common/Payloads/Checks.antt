-- ===== src/Common/Payloads/Checks.antt =====
-- What the check of a request payload lets through.
use coupon_nestjs.Prelude.{◌≡◌, ◌≢◌, ◌↔◌, refl, ap, ◌∙◌, String, true, false, is_positive, arith}
use coupon_nestjs.Common.Text.{is_blank}
use coupon_nestjs.Effect.{Result, ok, thrown, ok-inj}
use coupon_nestjs.Common.Payloads.{
  CouponIssueRequestPayload, RawNumber, absent, integer, other, RawText, unset, string, not_string,
  RawIssueRequest, CheckedRequest, typed, mistyped, kinds_of, ◌>>=◌, raw_of, require_request_id,
  require_positive, require_set, assert_issue_request_payload,
}

-- An identifier of the request that is not blank, and positive numbers.
pub record IsValid (p : CouponIssueRequestPayload) : Type 0 where
  pub named : is_blank p.request_id ≡ false
  pub user : is_positive p.user_id ≡ true
  pub event : is_positive p.event_id ≡ true
  pub coupon_type : is_positive p.coupon_type_id ≡ true

-- What each check lets through.
abbrev pub NamedText : RawText → Type 0
NamedText unset = ⊥
NamedText (string s) = is_blank s ≡ false
NamedText not_string = ⊥

abbrev pub PositiveNumber : RawNumber → Type 0
PositiveNumber absent = ⊥
PositiveNumber (integer n) = is_positive n ≡ true
PositiveNumber (other positive) = positive ≡ true

abbrev pub GivenText : RawText → Type 0
GivenText unset = ⊥
GivenText (string s) = Unit
GivenText not_string = Unit

pub record Passes (raw : RawIssueRequest) : Type 0 where
  pub named : NamedText raw.request_id
  pub user : PositiveNumber raw.user_id
  pub event : PositiveNumber raw.event_id
  pub coupon_type : PositiveNumber raw.coupon_type_id
  pub requested : GivenText raw.requested_at

require_request_id-NamedText : (s : RawText) → (require_request_id s ≡ ok tt) ↔ NamedText s
require_request_id-NamedText unset = (λ h. cc h, λ h. elim h [ ])
require_request_id-NamedText (string s) = (λ h. ground arith, λ h. rw h)
require_request_id-NamedText not_string = (λ h. cc h, λ h. elim h [ ])

require_positive-PositiveNumber :
    (name : String) (n : RawNumber) → (require_positive name n ≡ ok tt) ↔ PositiveNumber n
require_positive-PositiveNumber name absent = (λ h. cc h, λ h. elim h [ ])
require_positive-PositiveNumber name (integer n) = (λ h. ground arith, λ h. rw h)
require_positive-PositiveNumber name (other true) = (λ h. refl, λ h. refl)
require_positive-PositiveNumber name (other false) = (λ h. absurd (cc h), λ h. absurd (cc h))

require_set-GivenText : (name : String) (s : RawText) → (require_set s name ≡ ok tt) ↔ GivenText s
require_set-GivenText name unset = (λ h. cc h, λ h. elim h [ ])
require_set-GivenText name (string s) = (λ h. tt, λ h. refl)
require_set-GivenText name not_string = (λ h. tt, λ h. refl)

-- The fields of a message that has the type of a payload.
abbrev pub HasKind : RawIssueRequest → CheckedRequest → Type 0
HasKind raw (typed p) = raw ≡ raw_of p
HasKind raw (mistyped r) = (r ≡ raw) × ((p : CouponIssueRequestPayload) → raw ≢ raw_of p)

abbrev kinds : RawIssueRequest → CheckedRequest
kinds raw = kinds_of raw raw.request_id raw.user_id raw.event_id raw.coupon_type_id raw.requested_at

abbrev raw_request : RawText → RawNumber → RawNumber → RawNumber → RawText → RawIssueRequest
raw_request r u e t at = record {
  request_id = r;
  user_id = u;
  event_id = e;
  coupon_type_id = t;
  requested_at = at;
}

HasKind-kinds :
    (r : RawText) (u e t : RawNumber) (at : RawText)
    → HasKind (raw_request r u e t at) (kinds (raw_request r u e t at))
HasKind-kinds (string r) (integer u) (integer e) (integer t) (string at) = refl
HasKind-kinds unset u e t at = (refl, λ p h. cc (ap (λ x. x.request_id) h))
HasKind-kinds not_string u e t at = (refl, λ p h. cc (ap (λ x. x.request_id) h))
HasKind-kinds (string r) absent e t at = (refl, λ p h. cc (ap (λ x. x.user_id) h))
HasKind-kinds (string r) (other b) e t at = (refl, λ p h. cc (ap (λ x. x.user_id) h))
HasKind-kinds (string r) (integer u) absent t at = (refl, λ p h. cc (ap (λ x. x.event_id) h))
HasKind-kinds (string r) (integer u) (other b) t at = (refl, λ p h. cc (ap (λ x. x.event_id) h))
HasKind-kinds (string r) (integer u) (integer e) absent at =
    (refl, λ p h. cc (ap (λ x. x.coupon_type_id) h))
HasKind-kinds (string r) (integer u) (integer e) (other b) at =
    (refl, λ p h. cc (ap (λ x. x.coupon_type_id) h))
HasKind-kinds (string r) (integer u) (integer e) (integer t) unset =
    (refl, λ p h. cc (ap (λ x. x.requested_at) h))
HasKind-kinds (string r) (integer u) (integer e) (integer t) not_string =
    (refl, λ p h. cc (ap (λ x. x.requested_at) h))

payload-inj : (p q : CouponIssueRequestPayload) → raw_of p ≡ raw_of q → p ≡ q
payload-inj p q h = cc h

HasKind-unique :
    (raw : RawIssueRequest) (c c' : CheckedRequest) → HasKind raw c → HasKind raw c' → c ≡ c'
HasKind-unique raw (typed p) (typed q) h h' =
    let same : raw_of p ≡ raw_of q = cc (h, h') in ap typed (payload-inj p q same)
HasKind-unique raw (typed p) (mistyped r) h h' = absurd (h'.1 p h)
HasKind-unique raw (mistyped r) (typed q) h h' = absurd (h.1 q h')
HasKind-unique raw (mistyped r) (mistyped r') h h' = ap mistyped (cc (h.0, h'.0))

-- A check that is followed by others.
passed-first :
    {A : Type 0} (check : Result (Unit {0})) (next : Unit {0} → Result A) (a : A)
    → (check >>= next) ≡ ok a
    → (check ≡ ok tt) × (next tt ≡ ok a)
passed-first (ok _) next a h = (refl, h)
passed-first (thrown e) next a h = absurd (cc h)

passed-Passes :
    (raw : RawIssueRequest) (c : CheckedRequest)
    → assert_issue_request_payload raw ≡ ok c
    → Passes raw × (kinds raw ≡ c)
unfolding assert_issue_request_payload
passed-Passes raw c h =
    let named = passed-first (require_request_id raw.request_id) _ c h in
    let user = passed-first (require_positive "userId" raw.user_id) _ c named.1 in
    let event = passed-first (require_positive "eventId" raw.event_id) _ c user.1 in
    let coupon_type =
      passed-first (require_positive "couponTypeId" raw.coupon_type_id) _ c event.1 in
    let requested = passed-first (require_set raw.requested_at "requestedAt") _ c coupon_type.1 in
    (
      record {
        named = (require_request_id-NamedText raw.request_id).0 named.0;
        user = (require_positive-PositiveNumber "userId" raw.user_id).0 user.0;
        event = (require_positive-PositiveNumber "eventId" raw.event_id).0 event.0;
        coupon_type =
            (require_positive-PositiveNumber "couponTypeId" raw.coupon_type_id).0 coupon_type.0;
        requested = (require_set-GivenText "requestedAt" raw.requested_at).0 requested.0;
      },
      ok-inj requested.1,
    )

Passes-passed :
    (raw : RawIssueRequest) → Passes raw → assert_issue_request_payload raw ≡ ok (kinds raw)
unfolding assert_issue_request_payload
Passes-passed raw v = rw (
  (require_request_id-NamedText raw.request_id).1 v.named,
  (require_positive-PositiveNumber "userId" raw.user_id).1 v.user,
  (require_positive-PositiveNumber "eventId" raw.event_id).1 v.event,
  (require_positive-PositiveNumber "couponTypeId" raw.coupon_type_id).1 v.coupon_type,
  (require_set-GivenText "requestedAt" raw.requested_at).1 v.requested,
)

-- The check lets a parsed message through exactly when its identifier is a text that is not blank,
-- JavaScript finds its three numbers positive, and a time is given. What is let through is a payload
-- exactly when the message has the fields of one; otherwise a field is of another kind.
pub assert_issue_request_payload_lem :
    (raw : RawIssueRequest) (c : CheckedRequest)
    → (assert_issue_request_payload raw ≡ ok c) ↔ (Passes raw × HasKind raw c)
assert_issue_request_payload_lem raw c =
    let kind : HasKind raw (kinds raw) =
      HasKind-kinds raw.request_id raw.user_id raw.event_id raw.coupon_type_id raw.requested_at in
    (
      λ h. let (passes, same) = passed-Passes raw c h in (passes, rw same at kind),
      λ h. Passes-passed raw h.0 ∙ ap ok (HasKind-unique raw (kinds raw) c kind h.1),
    )

-- A valid payload passes unchanged.
pub valid-passes :
    (p : CouponIssueRequestPayload)
    → IsValid p
    → assert_issue_request_payload (raw_of p) ≡ ok (typed p)
valid-passes p v = (assert_issue_request_payload_lem (raw_of p) (typed p)).1 (
  record {
    named = v.named;
    user = v.user;
    event = v.event;
    coupon_type = v.coupon_type;
    requested = tt;
  },
  refl,
)
