-- ===== src/Examples/Sweeping.antt =====
-- The pending store of server-b as its applications themselves, under the scheduler and the result consumer.
use mathlib.Core.Bool.{and-eq-true_iff}
use coupon_nestjs.Prelude.{
  Bool-cases, zero, ◌&&◌, int_eq, if◌then◌else◌, not, is_some, Option-cases, ap, inl, inr, ◌==◌,
  nat_eq, ℕ, suc, ℤ, pos, ◌≡◌, refl, String, Bool, true, false, Option, none, some, List, [], ◌∷◌,
  ◌+◌, arith, ◌∙◌,
}
use coupon_nestjs.Common.Statuses.{IssuePendingStatus}
use coupon_nestjs.Common.Payloads.{
  raw_result_of, assert_issue_result_payload, CouponIssueRequestPayload, RawIssueResult,
}
use coupon_nestjs.Effect.{Async, Result, ok}
use coupon_nestjs.ServerB.Pending.{
  PendingIssue, Pendings, PendingIssueStore, Beside, Follows, done, put, saved, first_pending,
  republished, concluded,
}
use coupon_nestjs.ServerB.Pending.Up.{IsUp}
use coupon_nestjs.ServerB.Accept.{Desk}
use coupon_nestjs.ServerB.Scheduler.{Lookup}
use coupon_nestjs.ServerB.Scheduler as Scheduler
use coupon_nestjs.ServerB.Scheduler.Sweep.{Searches, Runs, run-Swept}
use coupon_nestjs.ServerB.Scheduler.Convergence.{IsConcluded, if_queued, cycles, cycles-IsConcluded}
use coupon_nestjs.Examples.Lookup.{reported}
use coupon_nestjs.Examples.Redeeming.{coupon}
use coupon_nestjs.Contract.Lookup.{SameEnd, lookup_of_row, paths_agree}
use coupon_nestjs.ServerB.Results as Results
use coupon_nestjs.Examples.Memory.{memory_broker}

abbrev save_if : Option PendingIssue → PendingIssue → Pendings → Result Bool × Pendings
save_if none p x = (ok true, put p.user_id p.coupon_type_id p x)
save_if (some q) p x = (ok false, x)

-- An operation on an application that is not there does nothing.
abbrev republish_if : Option PendingIssue → ℤ → ℤ → ℕ → Pendings → Result ℕ × Pendings
republish_if none u t now x = (ok 1, x)
republish_if (some p) u t now x = (ok (p.publish_attempts + 1), put u t (republished p now) x)

abbrev mark_if :
    Option PendingIssue
    → ℤ
    → ℤ
    → IssuePendingStatus
    → Option String
    → Pendings
    → Result (Unit {0}) × Pendings
mark_if none u t status code x = (ok tt, x)
mark_if (some p) u t status code x = (ok tt, put u t (concluded p status code) x)

abbrev Same : Pendings → Pendings → Type 0
Same x s = (u t : ℤ) → x u t ≡ s u t

abbrev SameBeside : ℤ → ℤ → Pendings → Pendings → Type 0
SameBeside u t x s = Beside u t s x

put-Same :
    (u t : ℤ) (p : PendingIssue) (x s : Pendings) → Same x s → Same (put u t p x) (put u t p s)
put-Same u t p x s r u' t' = rw (r u' t') refl

save_if-Follows :
    (p : PendingIssue) (x s : Pendings)
    → Same x s
    → Follows Same
        (SameBeside p.user_id p.coupon_type_id)
        s
        (saved (s p.user_id p.coupon_type_id) p s)
        (not (is_some (s p.user_id p.coupon_type_id)))
        (save_if (x p.user_id p.coupon_type_id) p x)
save_if-Follows p x s r = elim (Option-cases (s p.user_id p.coupon_type_id)) [
  | inl absent ↦
      rw (r p.user_id p.coupon_type_id, absent)
        (done refl (put-Same p.user_id p.coupon_type_id p x s r))
  | inr (q, there) ↦ rw (r p.user_id p.coupon_type_id, there) (done refl r)
]

-- The applications themselves.
abbrev memory_store : PendingIssueStore Pendings
memory_store = record {
  Handles = λ u t. Unit;
  Represents = Same;
  Besides = SameBeside;
  save_pending_if_absent = λ r u e t now x. save_if (x u t) (first_pending r u e t now) x;
  save_pending_if_absent_lem =
      λ r u e t now x s handles same. save_if-Follows (first_pending r u e t now) x s same;
  record_republish = λ u t now x. republish_if (x u t) u t now x;
  record_republish_lem = λ u t now x s p handles same there.
      rw (same u t, there) (done refl (put-Same u t (republished p now) x s same));
  mark_result = λ u t status code x. mark_if (x u t) u t status code x;
  mark_result_lem = λ u t status code x s p handles same there.
      rw (same u t, there) (done refl (put-Same u t (concluded p status code) x s same));
}

memory_store-IsUp : IsUp memory_store
memory_store-IsUp = record {
  republishes = λ u t now x s p handles same there e. rw (same u t, there) (λ h. cc h);
  marks = λ u t status code x s p handles same there e. rw (same u t, there) (λ h. cc h);
}

abbrev search : Pendings → Option PendingIssue
search x = if_queued (x (pos 7) (pos 20))

abbrev waiting : PendingIssue
waiting = first_pending "aaaaaaaa-bbbb-cccc-dddd-eeeeeeeeeeee" (pos 7) (pos 10) (pos 20) 200

abbrev desk : Desk Pendings
desk = record { pendings = put (pos 7) (pos 20) waiting (λ u t. none); log = [] }

-- server-c never hears of the request.
abbrev unknown : Lookup
unknown u t = ok none

cycles-IsConcluded_example :
    IsConcluded memory_store
      (memory_broker CouponIssueRequestPayload)
      (λ now. "t")
      3
      (pos 7)
      (pos 20)
      (cycles memory_store
        (memory_broker CouponIssueRequestPayload)
        (λ now. "t")
        3
        search
        (λ k. unknown)
        (λ k. 1000)
        3
        desk)
cycles-IsConcluded_example =
    cycles-IsConcluded memory_store (memory_broker CouponIssueRequestPayload) (λ now. "t") 3 search
      (λ k. unknown) (λ k. 1000) waiting 2 desk desk.pendings memory_store-IsUp
      (λ x s same. ap if_queued (same (pos 7) (pos 20))) tt (λ k. (none, refl)) (λ u t. refl) refl
      refl (omega arith)

-- A parser that reads the report of the coupon, whatever the text.
abbrev reading_report : String → Result RawIssueResult
reading_report text = ok (raw_result_of reported.payload)

reads_report : Results.parse reading_report (some "{}") ≡ some reported.payload
unfolding Results.parse assert_issue_result_payload
reads_report = refl

-- server-c has the coupon.
abbrev known : Lookup
known u t = ok (some (lookup_of_row coupon))

paths_agree_example :
    SameEnd memory_store memory_store-IsUp
      (memory_broker CouponIssueRequestPayload)
      (λ now. "t")
      3
      1000
      known
      reading_report
      10
      (some "{}")
      coupon
      reported
      waiting
      desk
      desk.pendings
      (Scheduler.attend memory_store
        (memory_broker CouponIssueRequestPayload)
        (λ now. "t")
        3
        known
        1000
        waiting
        desk).1.pendings
      (Results.deliver reading_report memory_store 10 (some "{}") desk.pendings)
paths_agree_example =
    paths_agree memory_store memory_store-IsUp (memory_broker CouponIssueRequestPayload)
      (λ now. "t") 3 1000 known reading_report 10 (some "{}") coupon reported waiting desk
      desk.pendings
      (record {
        user = refl;
        event = refl;
        coupon_type = refl;
        status = refl;
        code = refl;
        key = refl;
      })
      refl reads_report refl refl refl (omega arith) tt (λ u t. refl) refl

-- A search that looks at one application.
abbrev due : Option PendingIssue → List PendingIssue
due none = []
due (some p) = if (p.user_id == pos 7 && p.coupon_type_id == pos 20) && p.queued then p ∷ [] else []

abbrev find_due : ℕ → ℕ → Async Pendings (List PendingIssue)
find_due cutoff zero x = (ok [], x)
find_due cutoff (suc n) x = (ok (due (x (pos 7) (pos 20))), x)

due-Searches :
    (n : ℕ) (x s : Pendings)
    → Same x s
    → (o : Option PendingIssue) → s (pos 7) (pos 20) ≡ o
    → Searches memory_store
        (memory_broker CouponIssueRequestPayload)
        (λ now. "t")
        3
        memory_store-IsUp
        unknown
        (λ k. 1000)
        (λ u t. (none, refl))
        (suc n)
        s
        (ok (due o), x)
due-Searches n x s same none e = Searches.found [] refl (omega arith) tt tt same
due-Searches n x s same (some p) e =
    elim (Bool-cases ((p.user_id == pos 7 && p.coupon_type_id == pos 20) && p.queued)) [
      | inr other ↦ rw other (Searches.found [] refl (omega arith) tt tt same)
      | inl here ↦
          let (keys, queued) = (and-eq-true_iff _ _).0 here in
          let (user, coupon_type) = (and-eq-true_iff _ _).0 keys in
          let there : s p.user_id p.coupon_type_id ≡ some p =
            ap (λ u. s u p.coupon_type_id) (int_eq.eq_of_same p.user_id (pos 7) user)
            ∙ ap (s (pos 7)) (int_eq.eq_of_same p.coupon_type_id (pos 20) coupon_type)
            ∙ e in
          rw here (Searches.found (p ∷ []) refl (omega arith) ((tt, there), tt) (tt, tt) same)
    ]

find_due-Searches :
    (cutoff n : ℕ) (x s : Pendings)
    → Same x s
    → Searches memory_store
        (memory_broker CouponIssueRequestPayload)
        (λ now. "t")
        3
        memory_store-IsUp
        unknown
        (λ k. 1000)
        (λ u t. (none, refl))
        n
        s
        (find_due cutoff n x)
find_due-Searches cutoff zero x s same = Searches.found [] refl (omega arith) tt tt same
find_due-Searches cutoff (suc n) x s same =
    rw (same (pos 7) (pos 20)) (due-Searches n x s same (s (pos 7) (pos 20)) refl)

run-Swept_example :
    let out =
      Scheduler.run memory_store
        (memory_broker CouponIssueRequestPayload)
        (λ now. "t")
        3
        find_due
        10
        50
        unknown
        20000
        (λ k. 1000)
        (false, desk) in
    Runs memory_store
      (memory_broker CouponIssueRequestPayload)
      (λ now. "t")
      3
      memory_store-IsUp
      unknown
      (λ k. 1000)
      (λ u t. (none, refl))
      find_due
      find_due-Searches
      10000
      50
      false
      desk
      desk.pendings
      out
run-Swept_example =
    run-Swept memory_store (memory_broker CouponIssueRequestPayload) (λ now. "t") 3
      memory_store-IsUp unknown (λ k. 1000) (λ u t. (none, refl)) find_due find_due-Searches 10 50
      20000 false desk desk.pendings (λ u t. refl)
