-- ===== src/ServerB/RedisStore/Batch.antt =====
-- A batch of applications that have waited since the cutoff.
use mathlib.Core.List.{Memᴰ, map-append}
use mathlib.Core.List.Memᴰ
use coupon_nestjs.Prelude.{
  ℕ, ℤ, ◌+◌, ◌≡◌, ◌≤◌, refl, sym, ap, ◌∙◌, inl, inr, String, some, Option-cases, Bool-cases, List,
  [], ◌∷◌, ◌++◌, map, All, All-append, length, count_if, lookup, arith,
}
use coupon_nestjs.Common.Errors.{Exception}
use coupon_nestjs.Common.Requests.{is_exact}
use coupon_nestjs.Effect.{Result, ok, thrown}
use coupon_nestjs.ServerB.Pending.{PendingIssue, Pendings}
use coupon_nestjs.ServerB.Keys.{pending_zset_member}
use coupon_nestjs.ServerB.Redis.{Keyspace, Redis, Reads, is_due}
use coupon_nestjs.ServerB.RedisStore.{FoundIssue, find_of_members, find_pending_older_than}
use coupon_nestjs.ServerB.RedisStore.Represents.{Stores, Represents, score_of}
use coupon_nestjs.ServerB.RedisStore.Search.{
  IsWaiting, Due, orphan, waiting, found_of, Collected, Collects, collected, broken,
  member-Collects,
}

length-append : {A : Type 0} (xs ys : List A) → length (xs ++ ys) ≡ length xs + length ys
length-append [] ys = omega arith
length-append (x ∷ xs) ys = omega (arith, length-append xs ys)

-- A member that is there stands for an orphan or for an application that waits.
Due_of_score :
    (cutoff : ℕ) (ks : Keyspace) (s : Pendings) (m : String) (score : ℕ)
    → Represents ks s
    → lookup m ks.zset ≡ some score
    → score ≤ cutoff
    → Due cutoff s m
Due_of_score cutoff ks s m score r there due =
    let (u, t, exact, is_member) = r.members m score there in
    elim (Option-cases (s u t)) [
      | inl none_there ↦ orphan u t exact is_member none_there
      | inr (p, stored) ↦
          let at : Stores u t ks p = rw stored at (r.entries u t) in
          let scored : some score ≡ score_of p =
            sym there ∙ ap (λ x. lookup x ks.zset) is_member ∙ at.score in
          elim (Bool-cases p.queued) [
            | inl queued ↦
                let same : score ≡ p.last_published_at = cc (rw queued at scored) in
                waiting p (ap is_exact at.user ∙ exact.0, ap is_exact at.coupon_type ∙ exact.1)
                  (is_member
                    ∙ sym (
                        ap (λ x. pending_zset_member x p.coupon_type_id) at.user
                        ∙ ap (pending_zset_member u) at.coupon_type))
                  (
                    ap (λ x. s x p.coupon_type_id) at.user ∙ ap (s u) at.coupon_type ∙ stored,
                    queued,
                    omega (arith, same, due),
                  )
            | inr left ↦ absurd (cc (rw left at scored))
          ]
    ]

module _ (rounded : ℤ → ℤ) (redis : Redis) (cutoff : ℕ) (s : Pendings) where
  Collected-cons :
      (m : String) (ms : List String) (ps qs : List PendingIssue)
      → Collected cutoff s (m ∷ []) ps
      → Collected cutoff s ms qs
      → Collected cutoff s (m ∷ ms) (ps ++ qs)
  Collected-cons m ms ps qs x y = record {
    waiting = All-append (IsWaiting cutoff s) ps qs x.waiting y.waiting;
    bounded = omega (arith, length-append ps qs, x.bounded, y.bounded);
    complete = λ p found there. elim found [
      | Memᴰ.head e ↦ Memᴰ.append_left qs (x.complete p (Memᴰ.head e) there)
      | Memᴰ.tail later ↦ Memᴰ.append_right ps (y.complete p later there)
    ];
  }

  members-Collects :
      (ms : List String) (ks : Keyspace)
      → All (Due cutoff s) ms
      → Represents ks s
      → Collects rounded cutoff s ms (find_of_members rounded redis ms ks)
  unfolding find_of_members
  members-Collects [] ks due r =
      collected [] ks
        (record { waiting = tt; bounded = omega arith; complete = λ p m there. elim m [ ] }) r refl
  members-Collects (m ∷ ms) ks due r = elim (member-Collects rounded redis cutoff s m ks due.0 r) [
    | broken x ks' r' e ↦ rw e (broken x ks' r' refl)
    | collected ps ks' c r' e ↦ elim (members-Collects ms ks' due.1 r') [
      | broken x ks'' r'' e' ↦ rw (e, e') (broken x ks'' r'' refl)
      | collected qs ks'' c' r'' e' ↦
          rw (e, e')
            (collected (ps ++ qs) ks'' (Collected-cons m ms ps qs c c') r''
              (rw (map-append (found_of rounded) ps qs) refl))
    ]
  ]

  due_members :
      (ks : Keyspace) (ms : List String)
      → Represents ks s
      → All (λ m. (score : ℕ) × (lookup m ks.zset ≡ some score) × (score ≤ cutoff)) ms
      → All (Due cutoff s) ms
  due_members ks [] r all = tt
  due_members ks (m ∷ ms) r all =
      (Due_of_score cutoff ks s m all.0.0 r all.0.1 all.0.2, due_members ks ms r all.1)

  -- A search gives a batch of applications that wait, or throws, and keeps what Redis represents.
  pub data Searches (batch_size : ℕ) (out : Result (List FoundIssue) × Keyspace) : Type 0 where
    found :
        (ps : List PendingIssue) (ks : Keyspace)
        → All (IsWaiting cutoff s) ps
        → length ps ≤ batch_size
        → Represents ks s
        → out ≡ (ok (map (found_of rounded) ps), ks)
        → Searches batch_size out
    broken_off :
        (e : Exception) (ks : Keyspace)
        → Represents ks s
        → out ≡ (thrown e, ks)
        → Searches batch_size out

  -- In a Redis that represents the port's applications, a search finds only applications that wait
  -- since the cutoff or longer, no more than the batch, as they are stored; or it throws. Whether it
  -- takes orphans out of the sorted set or not, Redis represents the same applications afterwards.
  pub find_pending_older_than_lem :
      (batch_size : ℕ) (ks : Keyspace)
      → Represents ks s
      → Searches batch_size (find_pending_older_than rounded redis cutoff batch_size ks)
  unfolding find_pending_older_than
  find_pending_older_than_lem batch_size ks r =
      elim (redis.zrangebyscore_lem cutoff batch_size ks) [
        | Reads.failed x e ↦ rw e (broken_off x ks r refl)
        | Reads.read ms fits e ↦ elim (members-Collects ms ks (due_members ks ms r fits.due) r) [
          | broken x ks' r' e' ↦ rw (e, e') (broken_off x ks' r' refl)
          | collected ps ks' c r' e' ↦
              let bound : length ps ≤ batch_size = omega (arith, c.bounded, fits.limited) in
              rw (e, e') (found ps ks' c.waiting bound r' refl)
        ]
      ]

  -- When no more members than the batch are due, a search that returns finds every application that
  -- waits since the cutoff or longer.
  pub find_pending_older_than-complete :
      (batch_size : ℕ) (ks ks' : Keyspace) (fs : List FoundIssue) (p : PendingIssue)
      → Represents ks s
      → count_if (is_due cutoff) ks.zset ≤ batch_size
      → find_pending_older_than rounded redis cutoff batch_size ks ≡ (ok fs, ks')
      → IsWaiting cutoff s p
      → Memᴰ (found_of rounded p) fs
  unfolding find_pending_older_than
  find_pending_older_than-complete batch_size ks ks' fs p r few ran waits =
      elim (redis.zrangebyscore_lem cutoff batch_size ks) [
        | Reads.failed x e ↦ absurd (cc (rw e at ran))
        | Reads.read ms fits e ↦ elim (members-Collects ms ks (due_members ks ms r fits.due) r) [
          | broken x ks'' r' e' ↦ absurd (cc (rw (e, e') at ran))
          | collected ps ks'' c r' e' ↦
              let at : Stores p.user_id p.coupon_type_id ks p =
                rw waits.0 at (r.entries p.user_id p.coupon_type_id) in
              let scored : lookup (pending_zset_member p.user_id p.coupon_type_id) ks.zset
                  ≡ some p.last_published_at =
                rw waits.1 at at.score in
              let member = fits.complete few _ p.last_published_at scored waits.2 in
              let gives : map (found_of rounded) ps ≡ fs = cc (rw (e, e') at ran) in
              rw gives at (Memᴰ.map (found_of rounded) (c.complete p member waits.0))
        ]
      ]
