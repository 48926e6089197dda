-- ===== src/ServerB/Pending.antt =====
-- apps/server-b/src/domain/pending-issue.store.ts and pending-issue.ts: the port of the pending store,
-- with what its documentation promises of each operation. An operation that fails may have changed the
-- entry of its own user and coupon type, and no other.
pub mod Up
use coupon_nestjs.Prelude.{
  ℕ, ℤ, ◌≡◌, refl, ==_refl, ◌+◌, String, Bool, true, false, not, ◌&&◌, Option, none, some, is_some,
  ◌==◌, int_eq, if◌then◌else◌,
}
use coupon_nestjs.Common.Errors.{Exception}
use coupon_nestjs.Common.Statuses.{IssuePendingStatus}
use coupon_nestjs.Effect.{Result, ok, thrown, Async}

-- The hash of an application, with its score in the ZSET (`last_published_at`) and whether the ZSET
-- has it (`queued`).
pub record PendingIssue : Type 0 where
  pub request_id : String
  pub user_id : ℤ
  pub event_id : ℤ
  pub coupon_type_id : ℤ
  pub status : IssuePendingStatus
  pub created_at : ℕ
  pub publish_attempts : ℕ
  pub code : Option String
  pub last_published_at : ℕ
  pub queued : Bool

abbrev pub Pendings : Type 0
Pendings = ℤ → ℤ → Option PendingIssue

abbrev pub put : ℤ → ℤ → PendingIssue → Pendings → Pendings
put u t p s u' t' = if u' == u && t' == t then some p else s u' t'

-- Another entry is as it was.
abbrev pub Beside : ℤ → ℤ → Pendings → Pendings → Type 0
Beside u t s s' = (u' t' : ℤ) → (u' == u && t' == t) ≡ false → s' u' t' ≡ s u' t'

pub put_itself : (u t : ℤ) (p : PendingIssue) (s : Pendings) → put u t p s u t ≡ some p
put_itself u t p s = rw (==_refl u, ==_refl t) refl

pub put-Beside : (u t : ℤ) (p : PendingIssue) (s : Pendings) → Beside u t s (put u t p s)
put-Beside u t p s u' t' other = rw other refl

abbrev pub first_pending : String → ℤ → ℤ → ℤ → ℕ → PendingIssue
first_pending request_id user_id event_id coupon_type_id created_at = record {
  request_id = request_id;
  user_id = user_id;
  event_id = event_id;
  coupon_type_id = coupon_type_id;
  status = IssuePendingStatus.pending;
  created_at = created_at;
  publish_attempts = 1;
  code = none;
  last_published_at = created_at;
  queued = true;
}

-- The ZSET has the entry afterwards, even if it had left it.
abbrev pub republished : PendingIssue → ℕ → PendingIssue
republished p now = record p {
  publish_attempts = p.publish_attempts + 1;
  last_published_at = now;
  queued = true;
}

abbrev pub new_code : Option String → Option String → Option String
new_code none old = old
new_code (some code) old = some code

abbrev pub concluded : PendingIssue → IssuePendingStatus → Option String → PendingIssue
concluded p status code = record p { status = status; code = new_code code p.code; queued = false }

-- The application as it is stored, if there is none yet.
abbrev pub saved : Option PendingIssue → PendingIssue → Pendings → Pendings
saved none p s = put p.user_id p.coupon_type_id p s
saved (some q) p s = s

-- An operation answers and leaves a store of the applications `s'`, or throws and leaves one that has
-- all but its own application as in `s`.
pub data Follows {S A : Type 0} (Represents Besides : S → Pendings → Type 0) (s s' : Pendings)
    (a : A) (out : Result A × S) : Type 0 where
  done : out.0 ≡ ok a → Represents out.1 s' → Follows Represents Besides s s' a out
  broken :
      (e : Exception) → out.0 ≡ thrown e → Besides out.1 s → Follows Represents Besides s s' a out

-- The operations on one application, for the identifiers that the store handles. A store of another
-- state says when that stands for the applications of the port.
pub record PendingIssueStore (S : Type 0) : Type 1 where
  pub Handles : ℤ → ℤ → Type 0
  pub Represents : S → Pendings → Type 0
  pub Besides : ℤ → ℤ → S → Pendings → Type 0
  pub save_pending_if_absent : String → ℤ → ℤ → ℤ → ℕ → Async S Bool
  pub save_pending_if_absent_lem :
      (request_id : String) (u e t : ℤ) (created_at : ℕ) (x : S) (s : Pendings)
      → Handles u t
      → Represents x s
      → Follows Represents
          (Besides u t)
          s
          (saved (s u t) (first_pending request_id u e t created_at) s)
          (not (is_some (s u t)))
          (save_pending_if_absent request_id u e t created_at x)
  -- The number of attempts after the call.
  pub record_republish : ℤ → ℤ → ℕ → Async S ℕ
  pub record_republish_lem :
      (u t : ℤ) (now : ℕ) (x : S) (s : Pendings) (p : PendingIssue)
      → Handles u t
      → Represents x s
      → s u t ≡ some p
      → Follows Represents
          (Besides u t)
          s
          (put u t (republished p now) s)
          (p.publish_attempts + 1)
          (record_republish u t now x)
  pub mark_result : ℤ → ℤ → IssuePendingStatus → Option String → Async S (Unit {0})
  pub mark_result_lem :
      (u t : ℤ) (status : IssuePendingStatus) (code : Option String) (x : S) (s : Pendings)
      (p : PendingIssue)
      → Handles u t
      → Represents x s
      → s u t ≡ some p
      → Follows Represents
          (Besides u t)
          s
          (put u t (concluded p status code) s)
          tt
          (mark_result u t status code x)
