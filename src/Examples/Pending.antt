-- ===== src/Examples/Pending.antt =====
-- The pending store on a Redis in memory: an application is stored, found, sent again and concluded.
use mathlib.Core.List.{Memᴰ}
use coupon_nestjs.Prelude.{
  Bool, All, ◌≢◌, ◌≤◌, count_if, ℤ, pos, ◌≡◌, refl, true, false, none, some, [], ◌∷◌, arith,
}
use coupon_nestjs.Common.Errors.{plain}
use coupon_nestjs.Common.Text.{digits, show_nat, show_int}
use coupon_nestjs.Common.Requests.{read_digits, read_long}
use coupon_nestjs.ServerB.Keys.{split_colons}
use coupon_nestjs.Common.Statuses.{IssuePendingStatus}
use coupon_nestjs.Effect.{Result, ok, thrown}
use coupon_nestjs.ServerB.Pending.{
  PendingIssue, Pendings, done, broken, put, first_pending, republished, concluded,
}
use coupon_nestjs.ServerB.Redis.{Keyspace, Redis, Applies, is_due}
use coupon_nestjs.ServerB.RedisStore.{
  save_pending_if_absent, record_republish, mark_result, find_pending_older_than, fill_pending,
  find_of_members, issue_of_entries, parse_long_strict,
}
use coupon_nestjs.ServerB.RedisStore.Represents.{Represents, AreExact, Follows}
use coupon_nestjs.ServerB.RedisStore.Updates.{record_republish_lem, mark_result_lem}
use coupon_nestjs.ServerB.RedisStore.Saves.{save_pending_if_absent_lem}
use coupon_nestjs.ServerB.RedisStore.Search.{found_of}
use coupon_nestjs.ServerB.RedisStore.Batch.{
  Searches, find_pending_older_than_lem, find_pending_older_than-complete,
}
use coupon_nestjs.ServerB.RedisStore.Stranded.{Attempt, attempt_all, IsStranded, stranded_lem}
use coupon_nestjs.Examples.MemoryRedis.{memory_hashes}

abbrev pub empty_keyspace : Keyspace
empty_keyspace = record { hashes = λ key. []; expires = λ key. false; zset = [] }

abbrev pub nothing_yet : Pendings
nothing_yet u t = none

pub empty_keyspace-Represents : Represents empty_keyspace nothing_yet
empty_keyspace-Represents = record {
  entries = λ u t. refl;
  members = λ m score there. absurd (cc there);
}

pub exact : AreExact (pos 7) (pos 20)
exact = (refl, refl)

abbrev pub application : PendingIssue
application = first_pending "aaaaaaaa-bbbb-cccc-dddd-eeeeeeeeeeee" (pos 7) (pos 10) (pos 20) 200

abbrev pub saving : Result Bool × Keyspace
saving =
    save_pending_if_absent memory_hashes 86400 "aaaaaaaa-bbbb-cccc-dddd-eeeeeeeeeeee" (pos 7)
      (pos 10) (pos 20) 200 empty_keyspace

save_pending_if_absent_lem_example :
    Follows (pos 7) (pos 20) nothing_yet (put (pos 7) (pos 20) application nothing_yet) true saving
save_pending_if_absent_lem_example =
    save_pending_if_absent_lem memory_hashes 86400 (pos 7) (pos 20)
      "aaaaaaaa-bbbb-cccc-dddd-eeeeeeeeeeee" (pos 10) 200 empty_keyspace nothing_yet exact
      empty_keyspace-Represents

abbrev pub one_application : Pendings
one_application = put (pos 7) (pos 20) application nothing_yet

saving_returns : saving.0 ≡ ok true
unfolding save_pending_if_absent fill_pending
saving_returns = refl

-- What is represented once an operation has returned.
represented :
    {A : Type 0} (u t : ℤ) (s s' : Pendings) (a : A) (out : Result A × Keyspace)
    → Follows u t s s' a out
    → out.0 ≡ ok a
    → Represents out.1 s'
represented u t s s' a out (done e r) h = r
represented u t s s' a out (broken x e r) h = absurd (cc (e, h))

pub saving-Represents : Represents saving.1 one_application
saving-Represents =
    represented (pos 7) (pos 20) nothing_yet one_application true saving
      (save_pending_if_absent_lem memory_hashes 86400 (pos 7) (pos 20)
        "aaaaaaaa-bbbb-cccc-dddd-eeeeeeeeeeee" (pos 10) 200 empty_keyspace nothing_yet exact
        empty_keyspace-Represents)
      saving_returns

record_republish_lem_example :
    Follows
      (pos 7)
      (pos 20)
      one_application
      (put (pos 7) (pos 20) (republished application 10300) one_application)
      2
      (record_republish memory_hashes 86400 (pos 7) (pos 20) 10300 saving.1)
record_republish_lem_example =
    record_republish_lem memory_hashes 86400 (pos 7) (pos 20) 10300 saving.1 one_application
      application exact saving-Represents refl

mark_result_lem_example :
    Follows
      (pos 7)
      (pos 20)
      one_application
      (put
        (pos 7)
        (pos 20)
        (concluded application IssuePendingStatus.success (some "ABCDEFGH0123"))
        one_application)
      tt
      (mark_result memory_hashes 86400
        (pos 7)
        (pos 20)
        IssuePendingStatus.success
        (some "ABCDEFGH0123")
        saving.1)
mark_result_lem_example =
    mark_result_lem memory_hashes 86400 (pos 7) (pos 20) IssuePendingStatus.success
      (some "ABCDEFGH0123") saving.1 one_application application exact saving-Represents refl

find_pending_older_than_lem_example :
    Searches
      (λ n. n)
      memory_hashes
      10200
      one_application
      50
      (find_pending_older_than (λ n. n) memory_hashes 10200 50 saving.1)
find_pending_older_than_lem_example =
    find_pending_older_than_lem (λ n. n) memory_hashes 10200 one_application 50 saving.1
      saving-Represents

search_finds :
    find_pending_older_than (λ n. n) memory_hashes 10200 50 saving.1
    ≡ (ok (found_of (λ n. n) application ∷ []), saving.1)
unfolding find_pending_older_than find_of_members issue_of_entries parse_long_strict
    save_pending_if_absent fill_pending split_colons show_int show_nat digits read_long read_digits
search_finds = refl

few_members : count_if (is_due 10200) saving.1.zset ≤ 50
unfolding save_pending_if_absent fill_pending show_int
few_members = omega arith

find_pending_older_than-complete_example :
    Memᴰ (found_of (λ n. n) application) (found_of (λ n. n) application ∷ [])
find_pending_older_than-complete_example =
    find_pending_older_than-complete (λ n. n) memory_hashes 10200 one_application 50 saving.1
      saving.1 (found_of (λ n. n) application ∷ []) application saving-Represents few_members
      search_finds (refl, refl, omega arith)

-- A Redis whose HSET does not reach it.
abbrev cut_off : Redis
cut_off = record memory_hashes {
  hset = λ key fields ks. (thrown (plain "ECONNRESET"), ks);
  hset_lem = λ key fields ks. Applies.failed (plain "ECONNRESET") refl;
}

abbrev second_attempt : Attempt
second_attempt = record { request_id = "r2"; event_id = pos 10; created_at = 900 }

stranded_lem_example :
    let out =
      save_pending_if_absent cut_off 86400 "r1" (pos 7) (pos 10) (pos 20) 200 empty_keyspace in
    (out.0 ≡ thrown (plain "ECONNRESET"))
    × All
        (λ r. r ≢ ok true)
        (attempt_all cut_off 86400 (pos 7) (pos 20) (second_attempt ∷ []) out.1).0
    × IsStranded cut_off 86400
        (pos 7)
        (pos 20)
        (attempt_all cut_off 86400 (pos 7) (pos 20) (second_attempt ∷ []) out.1).1
stranded_lem_example =
    stranded_lem cut_off 86400 (pos 7) (pos 20) "r1" (pos 10) 200 (plain "ECONNRESET")
      empty_keyspace (second_attempt ∷ []) refl refl refl refl
