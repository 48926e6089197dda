-- ===== src/ServerB/Scheduler/Sweep.antt =====
-- What a sweep does to the applications that it has found.

use coupon_nestjs.Prelude.{
  ℕ, ℤ, Bool, true, length, ◌≤◌, ◌+◌, ◌-◌, ◌*◌, ◌≡◌, refl, ◌∙◌, String, false, ◌&&◌, Option, some,
  List, [], ◌∷◌, All, ◌==◌, int_eq,
}
use coupon_nestjs.Common.Broker.{Broker}
use coupon_nestjs.Common.Payloads.{CouponIssueRequestPayload}
use coupon_nestjs.Common.Errors.{Exception}
use coupon_nestjs.Effect.{Result, ok, thrown, Async, pure, lift, ◌>>=◌, try_catch, handled}
use coupon_nestjs.ServerB.Pending.{
  PendingIssue, Pendings, PendingIssueStore, put, put_itself, put-Beside,
}
use coupon_nestjs.ServerB.Pending.Up.{IsUp}
use coupon_nestjs.ServerB.Accept.{Desk}
use coupon_nestjs.ServerB.Scheduler.{
  UserCouponLookupResult, Lookup, conclude, attend, attend_all, sweep, run,
}
use coupon_nestjs.ServerB.Scheduler.Attention.{Becomes, Attends, attend-Attends}

-- An application of another user or coupon type.
abbrev pub IsOther : ℤ → ℤ → PendingIssue → Type 0
IsOther u t p = (u == p.user_id && t == p.coupon_type_id) ≡ false

-- The applications of a batch are of different users or coupon types.
abbrev pub AreApart : List PendingIssue → Type 0
AreApart [] = Unit
AreApart (p ∷ ps) =
    All (λ q. IsOther q.user_id q.coupon_type_id p × IsOther p.user_id p.coupon_type_id q) ps
    × AreApart ps

caught_returns :
    {S : Type 0} (m : Async (Desk S) (Unit {0})) (d : Desk S)
    → let out : Result (Unit {0}) × Desk S = try_catch m (λ _. pure tt) d in out.0 ≡ ok tt
caught_returns {S = S} m d = go (m d)
  where
    go :
        (x : Result (Unit {0}) × Desk S)
        → let out : Result (Unit {0}) × Desk S = handled (λ _. pure tt) x in out.0 ≡ ok tt
    go (ok a, d') = refl
    go (thrown e, d') = refl

module _ {S : Type 0} (store : PendingIssueStore S) (broker : Broker CouponIssueRequestPayload)
    (to_instant_string : ℕ → String) (max_publish_attempts : ℕ) where
  abbrev pub Handled : Pendings → PendingIssue → Type 0
  Handled s p = store.Handles p.user_id p.coupon_type_id × (s p.user_id p.coupon_type_id ≡ some p)

  -- What became of an application of the batch.
  pub record Attended (s' : Pendings) (p : PendingIssue) : Type 0 where
    pub now : ℕ
    pub entry : PendingIssue
    pub stored : s' p.user_id p.coupon_type_id ≡ some entry
    pub becomes : Becomes store broker to_instant_string max_publish_attempts now p entry

  pub record Swept (ps : List PendingIssue) (s : Pendings) (d' : Desk S) : Type 0 where
    pub applications : Pendings
    pub represented : store.Represents d'.pendings applications
    pub attended : All (Attended applications) ps
    pub others : (u t : ℤ) → All (IsOther u t) ps → applications u t ≡ s u t

  still_there :
      (p : PendingIssue) (entry : PendingIssue) (s : Pendings) (ps : List PendingIssue)
      → All (λ q. IsOther q.user_id q.coupon_type_id p × IsOther p.user_id p.coupon_type_id q) ps
      → All (Handled s) ps
      → All (Handled (put p.user_id p.coupon_type_id entry s)) ps
  still_there p entry s [] apart all = tt
  still_there p entry s (q ∷ ps) apart all = (
    (
      all.0.0,
      put-Beside p.user_id p.coupon_type_id entry s q.user_id q.coupon_type_id apart.0.0 ∙ all.0.1,
    ),
    still_there p entry s ps apart.1 all.1,
  )

  others_of :
      (p : PendingIssue) (ps : List PendingIssue)
      → All (λ q. IsOther q.user_id q.coupon_type_id p × IsOther p.user_id p.coupon_type_id q) ps
      → All (IsOther p.user_id p.coupon_type_id) ps
  others_of p [] apart = tt
  others_of p (q ∷ ps) apart = (apart.0.1, others_of p ps apart.1)

  attend_returns :
      (lookup : Lookup) (now : ℕ) (p : PendingIssue) (d : Desk S)
      → (attend store broker to_instant_string max_publish_attempts lookup now p d).0 ≡ ok tt
  unfolding attend
  attend_returns lookup now p d =
      caught_returns
        (lift (lookup p.user_id p.coupon_type_id)
          >>= conclude store broker to_instant_string max_publish_attempts p now)
        d

  module _ (up : IsUp store) (lookup : Lookup) (times : ℕ → ℕ)
      (says : (u t : ℤ) → (a : Option UserCouponLookupResult) × (lookup u t ≡ ok a)) where
    Swept-cons :
        (p : PendingIssue) (ps : List PendingIssue) (s : Pendings) (d d' : Desk S) (now : ℕ)
        (a : Attends store broker to_instant_string max_publish_attempts now p s d)
        → All (IsOther p.user_id p.coupon_type_id) ps
        → Swept ps (put p.user_id p.coupon_type_id a.entry s) d'
        → Swept (p ∷ ps) s d'
    Swept-cons p ps s d d' now a apart w = record {
      applications = w.applications;
      represented = w.represented;
      attended = (
        record {
          now = now;
          entry = a.entry;
          stored =
              w.others p.user_id p.coupon_type_id apart
              ∙ put_itself p.user_id p.coupon_type_id a.entry s;
          becomes = a.becomes;
        },
        w.attended,
      );
      others = λ u t other.
          w.others u t other.1 ∙ put-Beside p.user_id p.coupon_type_id a.entry s u t other.0;
    }

    -- While the store is up and server-c answers, a sweep over applications of the store, of different
    -- users or coupon types, attends to each of them: it leaves the ZSET with a final status, or one
    -- more attempt is counted, below the cap. All other applications are as they were.
    pub attend_all-Swept :
        (n : ℕ) (ps : List PendingIssue) (d : Desk S) (s : Pendings)
        → store.Represents d.pendings s
        → All (Handled s) ps
        → AreApart ps
        → Swept ps s
            (attend_all store broker to_instant_string max_publish_attempts lookup times n ps d).1
    attend_all-Swept n [] d s r all apart = record {
      applications = s;
      represented = r;
      attended = tt;
      others = λ u t other. refl;
    }
    attend_all-Swept n (p ∷ ps) d s r all apart =
        let (answer, said) = says p.user_id p.coupon_type_id in
        let a =
          attend-Attends store broker to_instant_string max_publish_attempts up (times n) p d s
            all.0.0 r all.0.1 lookup answer said in
        let d1 =
          (attend store broker to_instant_string max_publish_attempts lookup (times n) p d).1 in
        rw (attend_returns lookup (times n) p d) (
          Swept-cons p ps s d1 _ (times n) a (others_of p ps apart.0) (
            attend_all-Swept (n + 1) ps d1 (put p.user_id p.coupon_type_id a.entry s) a.represented
              (still_there p a.entry s ps apart.0 all.1) apart.1))

    -- What the port documents of a search, for the state that it reads: it gives applications of the
    -- store, of different users or coupon types, no more than the batch, or throws; it may clear what
    -- stands for no application.
    pub data Searches (batch_size : ℕ) (s : Pendings) (out : Result (List PendingIssue) × S)
        : Type 0 where
      found :
          (ps : List PendingIssue)
          → out.0 ≡ ok ps
          → length ps ≤ batch_size
          → All (Handled s) ps
          → AreApart ps
          → store.Represents out.1 s
          → Searches batch_size s out
      broken_off :
          (e : Exception) → out.0 ≡ thrown e → store.Represents out.1 s → Searches batch_size s out

    module _ (find_pending_older_than : ℕ → ℕ → Async S (List PendingIssue))
        (searches : (cutoff batch_size : ℕ) (x : S) (s : Pendings)
          → store.Represents x s
          → Searches batch_size s (find_pending_older_than cutoff batch_size x)) where
      -- What a cycle comes to, by the flag that it finds and by what its search gives.
      pub data Runs (cutoff batch_size : ℕ) (running : Bool) (d : Desk S) (s : Pendings)
          (out : Bool × Desk S) : Type 0 where
        skipped : running ≡ true → out ≡ (true, d) → Runs cutoff batch_size running d s out
        swept :
            (ps : List PendingIssue)
            → running ≡ false
            → (find_pending_older_than cutoff batch_size d.pendings).0 ≡ ok ps
            → length ps ≤ batch_size
            → out.0 ≡ false
            → Swept ps s out.1
            → Runs cutoff batch_size running d s out
        not_found :
            (e : Exception)
            → running ≡ false
            → (find_pending_older_than cutoff batch_size d.pendings).0 ≡ thrown e
            → out.0 ≡ false
            → store.Represents out.1.pendings s
            → out.1.log ≡ d.log
            → Runs cutoff batch_size running d s out

      -- While the store is up and server-c answers, a cycle attends to all applications that its search
      -- gives, a batch at most: each of them leaves the ZSET with a final status or has one more
      -- attempt counted, below the cap, and all other applications are as they were. If the search
      -- throws, nothing is published and all applications are as they were. The flag is cleared in
      -- either case. If another cycle is running, nothing happens.
      pub run-Swept :
          (cutoff_seconds batch_size started : ℕ) (running : Bool) (d : Desk S) (s : Pendings)
          → store.Represents d.pendings s
          → let out =
              run store broker to_instant_string max_publish_attempts find_pending_older_than
                cutoff_seconds batch_size lookup started times
                (running, d) in
            Runs (started - cutoff_seconds * 1000) batch_size running d s out
      unfolding run sweep
      run-Swept cutoff_seconds batch_size started true d s r = skipped refl refl
      run-Swept cutoff_seconds batch_size started false d s r =
          let cutoff = started - cutoff_seconds * 1000 in
          let found_there = find_pending_older_than cutoff batch_size d.pendings in
          let d1 = record d { pendings = found_there.1 } in
          elim (searches cutoff batch_size d.pendings s r) [
            | found ps e few handled apart r' ↦
                rw e (swept ps refl e few refl (attend_all-Swept 0 ps d1 s r' handled apart))
            | broken_off x e r' ↦ rw e (not_found x refl e refl r' refl)
          ]
