-- ===== src/ServerB/RedisStore/Hashes.antt =====
-- The fields of a hash after the operations that write them.
use coupon_nestjs.Prelude.{
  ℕ, ℤ, ◌+◌, ◌≡◌, refl, String, Option, none, some, [], ◌∷◌, insert, insert_all, lookup-insert,
  string_eq, ==_refl,
}
use coupon_nestjs.Common.Text.{digits, show_nat, show_int}
use coupon_nestjs.Common.Statuses.{IssuePendingStatus}
use coupon_nestjs.ServerB.Pending.{PendingIssue, first_pending, republished, concluded}
use coupon_nestjs.ServerB.Redis.{Fields, Keyspace, with_hash, expiring}
use coupon_nestjs.ServerB.RedisStore.{status_text, first_fields}
use coupon_nestjs.ServerB.RedisStore.Represents.{Holds}

-- A hash is what was set.
pub hash_itself : (key : String) (h : Fields) (ks : Keyspace) → (with_hash key h ks).hashes key ≡ h
hash_itself key h ks = rw (==_refl key) refl

pub hash-expiring :
    (key : String) (h : Fields) (ks : Keyspace) (k : String)
    → (expiring key h ks).hashes k ≡ ks.hashes k
hash-expiring key [] ks k = refl
hash-expiring key (f ∷ fs) ks k = refl

pub Holds-first :
    (request_id : String) (u e t : ℤ) (created_at : ℕ)
    → Holds
        (insert_all (first_fields request_id u e t created_at) (insert "userId" (show_int u) []))
        (first_pending request_id u e t created_at)
unfolding show_nat digits
Holds-first request_id u e t created_at = record {
  request_id = refl;
  user = refl;
  event = refl;
  coupon_type = refl;
  status = refl;
  created_at = refl;
  attempts = refl;
  last_published_at = refl;
  code = refl;
}

pub Holds-republished :
    (h : Fields) (p : PendingIssue) (now : ℕ)
    → Holds h p
    → Holds
        (insert "lastPublishedAt"
          (show_nat now)
          (insert "publishAttempts" (show_nat (p.publish_attempts + 1)) h))
        (republished p now)
Holds-republished h p now x = record {
  request_id = simp lookup-insert x.request_id;
  user = simp lookup-insert x.user;
  event = simp lookup-insert x.event;
  coupon_type = simp lookup-insert x.coupon_type;
  status = simp lookup-insert x.status;
  created_at = simp lookup-insert x.created_at;
  attempts = simp lookup-insert refl;
  last_published_at = simp lookup-insert refl;
  code = simp lookup-insert x.code;
}

-- The hash with a new status, and a new code if there is one.
abbrev pub concluded_hash : IssuePendingStatus → Option String → Fields → Fields
concluded_hash status none h = insert "status" (status_text status) h
concluded_hash status (some code) h = insert "code" code (insert "status" (status_text status) h)

pub Holds-concluded :
    (h : Fields) (p : PendingIssue) (status : IssuePendingStatus) (code : Option String)
    → Holds h p
    → Holds (concluded_hash status code h) (concluded p status code)
Holds-concluded h p status none x = record {
  request_id = simp lookup-insert x.request_id;
  user = simp lookup-insert x.user;
  event = simp lookup-insert x.event;
  coupon_type = simp lookup-insert x.coupon_type;
  status = simp lookup-insert refl;
  created_at = simp lookup-insert x.created_at;
  attempts = simp lookup-insert x.attempts;
  last_published_at = simp lookup-insert x.last_published_at;
  code = simp lookup-insert x.code;
}
Holds-concluded h p status (some code) x = record {
  request_id = simp lookup-insert x.request_id;
  user = simp lookup-insert x.user;
  event = simp lookup-insert x.event;
  coupon_type = simp lookup-insert x.coupon_type;
  status = simp lookup-insert refl;
  created_at = simp lookup-insert x.created_at;
  attempts = simp lookup-insert x.attempts;
  last_published_at = simp lookup-insert x.last_published_at;
  code = simp lookup-insert refl;
}
