-- ===== src/ServerB/Pending/Up.antt =====
-- A pending store whose operations return: no operation on an application that is there fails.
use coupon_nestjs.Prelude.{ℕ, ℤ, ◌+◌, ◌≡◌, ◌≢◌, String, Option, some}
use coupon_nestjs.Common.Errors.{Exception}
use coupon_nestjs.Common.Statuses.{IssuePendingStatus}
use coupon_nestjs.Effect.{Result, ok, thrown}
use coupon_nestjs.ServerB.Pending.{
  PendingIssue, Pendings, PendingIssueStore, Follows, done, broken, put, republished, concluded,
}

-- It answers, and the store stands for the given applications.
abbrev pub Answers : {S A : Type 0} → (S → Pendings → Type 0) → Pendings → A → Result A × S → Type 0
Answers Represents s a out = (out.0 ≡ ok a) × Represents out.1 s

Answers-of_Follows :
    {S A : Type 0} {Represents Besides : S → Pendings → Type 0} {s s' : Pendings} {a : A}
    {out : Result A × S}
    → ((e : Exception) → out.0 ≢ thrown e)
    → Follows Represents Besides s s' a out
    → Answers Represents s' a out
Answers-of_Follows up (done e r) = (e, r)
Answers-of_Follows up (broken x e b) = absurd (up x e)

module _ {S : Type 0} (store : PendingIssueStore S) where
  pub record IsUp : Type 0 where
    pub republishes :
        (u t : ℤ) (now : ℕ) (x : S) (s : Pendings) (p : PendingIssue)
        → store.Handles u t
        → store.Represents x s
        → s u t ≡ some p
        → (e : Exception) → (store.record_republish u t now x).0 ≢ thrown e
    pub marks :
        (u t : ℤ) (status : IssuePendingStatus) (code : Option String) (x : S) (s : Pendings)
        (p : PendingIssue)
        → store.Handles u t
        → store.Represents x s
        → s u t ≡ some p
        → (e : Exception) → (store.mark_result u t status code x).0 ≢ thrown e

  module _ (up : IsUp) (u t : ℤ) (x : S) (s : Pendings) (p : PendingIssue)
      (handles : store.Handles u t) (r : store.Represents x s) (there : s u t ≡ some p) where
    pub record_republish-Answers :
        (now : ℕ)
        → Answers store.Represents
            (put u t (republished p now) s)
            (p.publish_attempts + 1)
            (store.record_republish u t now x)
    record_republish-Answers now =
        Answers-of_Follows (up.republishes u t now x s p handles r there)
          (store.record_republish_lem u t now x s p handles r there)

    pub mark_result-Answers :
        (status : IssuePendingStatus) (code : Option String)
        → Answers store.Represents
            (put u t (concluded p status code) s)
            tt
            (store.mark_result u t status code x)
    mark_result-Answers status code =
        Answers-of_Follows (up.marks u t status code x s p handles r there)
          (store.mark_result_lem u t status code x s p handles r there)
