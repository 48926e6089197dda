-- ===== src/ServerB/RedisStore/Search.antt =====
-- The search finds the applications that the port of the pending store tells of.
use mathlib.Core.List.{Memᴰ}
use coupon_nestjs.Prelude.{
  ℕ, ℤ, pos, ◌≡◌, ◌≤◌, refl, sym, ap, ◌∙◌, String, true, none, some, List, [], ◌∷◌, map, All,
  length, arith,
}
use coupon_nestjs.Common.Errors.{Exception}
use coupon_nestjs.Common.Text.{show_nat, show_int}
use coupon_nestjs.Common.Requests.{read_long, number_of, is_exact}
use coupon_nestjs.Common.Requests.RoundTrip.{read_long-show_int}
use coupon_nestjs.Effect.{Result, ok, thrown, ◌>>=◌}
use coupon_nestjs.ServerB.Pending.{PendingIssue, Pendings}
use coupon_nestjs.ServerB.Keys.{pending_hash, pending_zset_member, split_colons}
use coupon_nestjs.ServerB.Keys.Apart.{split-pending_zset_member, member_inj}
use coupon_nestjs.ServerB.Redis.{Fields, Keyspace, Redis, Reads, Applies, unscored}
use coupon_nestjs.ServerB.RedisStore.{
  FoundIssue, integer, status_text, parse_long_strict, issue_of_entries, unless_orphan,
  find_of_parts,
}
use coupon_nestjs.ServerB.RedisStore.Runs.{Spares-unscored}
use coupon_nestjs.ServerB.RedisStore.Represents.{
  Holds, Stores, At, AreExact, Represents, Represents-update,
}

-- An application waits since the cutoff or longer.
abbrev pub IsWaiting : ℕ → Pendings → PendingIssue → Type 0
IsWaiting cutoff s p =
    (s p.user_id p.coupon_type_id ≡ some p) × (p.queued ≡ true) × (p.last_published_at ≤ cutoff)

-- What the port knows of a member: an orphan, or an application that waits.
pub data Due (cutoff : ℕ) (s : Pendings) (m : String) : Type 0 where
  orphan : (u t : ℤ) → AreExact u t → m ≡ pending_zset_member u t → s u t ≡ none → Due cutoff s m
  waiting :
      (p : PendingIssue)
      → AreExact p.user_id p.coupon_type_id
      → m ≡ pending_zset_member p.user_id p.coupon_type_id
      → IsWaiting cutoff s p
      → Due cutoff s m

-- Which applications the members stand for.
pub record Collected (cutoff : ℕ) (s : Pendings) (ms : List String) (ps : List PendingIssue)
    : Type 0 where
  pub waiting : All (IsWaiting cutoff s) ps
  pub bounded : length ps ≤ length ms
  pub complete :
      (p : PendingIssue)
      → Memᴰ (pending_zset_member p.user_id p.coupon_type_id) ms
      → s p.user_id p.coupon_type_id ≡ some p
      → Memᴰ p ps

pub read_long-show_nat : (n : ℕ) → read_long (show_nat n) ≡ some (pos n)
unfolding show_int
read_long-show_nat n = read_long-show_int (pos n)

module _ (rounded : ℤ → ℤ) where
  -- What a search tells of a stored application.
  abbrev pub found_of : PendingIssue → FoundIssue
  found_of p = record {
    request_id = p.request_id;
    user_id = p.user_id;
    event_id = integer (number_of rounded p.event_id);
    coupon_type_id = p.coupon_type_id;
    status = status_text p.status;
    created_at = integer (number_of rounded (pos p.created_at));
    publish_attempts = number_of rounded (pos p.publish_attempts);
  }

  issue_of_entries-Holds :
      (h : Fields) (p : PendingIssue)
      → Holds h p
      → issue_of_entries rounded p.user_id p.coupon_type_id h ≡ found_of p ∷ []
  unfolding issue_of_entries parse_long_strict
  issue_of_entries-Holds h p x =
      rw
        (
          x.request_id,
          x.event,
          x.status,
          x.created_at,
          x.attempts,
          read_long-show_nat p.publish_attempts,
          read_long-show_int p.event_id,
          read_long-show_nat p.created_at,
        )
        refl

  parse_long_strict-show_int :
      (n : ℤ) → is_exact n ≡ true → parse_long_strict rounded (show_int n) ≡ some n
  unfolding parse_long_strict
  parse_long_strict-show_int n exact = rw (read_long-show_int n, exact) refl

  pub data Collects (cutoff : ℕ) (s : Pendings) (ms : List String)
      (out : Result (List FoundIssue) × Keyspace) : Type 0 where
    collected :
        (ps : List PendingIssue) (ks : Keyspace)
        → Collected cutoff s ms ps
        → Represents ks s
        → out ≡ (ok (map found_of ps), ks)
        → Collects cutoff s ms out
    broken :
        (e : Exception) (ks : Keyspace)
        → Represents ks s
        → out ≡ (thrown e, ks)
        → Collects cutoff s ms out

  -- A hash that holds an application is there.
  unless_orphan-Holds :
      (redis : Redis) (m : String) (h : Fields) (p : PendingIssue) (ks : Keyspace)
      → Holds h p
      → unless_orphan rounded redis m p.user_id p.coupon_type_id h ks ≡ (ok (found_of p ∷ []), ks)
  unless_orphan-Holds redis m [] p ks x = absurd (cc x.request_id)
  unless_orphan-Holds redis m (f ∷ fs) p ks x = rw (issue_of_entries-Holds (f ∷ fs) p x) refl

  module _ (redis : Redis) (cutoff : ℕ) (s : Pendings) where
    unscored-Represents :
        (m : String) (u t : ℤ) (ks : Keyspace)
        → AreExact u t
        → m ≡ pending_zset_member u t
        → s u t ≡ none
        → Represents ks s
        → Represents (unscored m ks) s
    unscored-Represents m u t ks exact is_member none_there r =
        let at : At u t ks none = rw none_there at (r.entries u t) in
        rw is_member (
          Represents-update u t ks (unscored (pending_zset_member u t) ks) (Spares-unscored u t ks)
            s s exact r (rw none_there at) (λ u' t' other. refl))

    orphan-Collected :
        (m : String) (u t : ℤ)
        → m ≡ pending_zset_member u t
        → s u t ≡ none
        → Collected cutoff s (m ∷ []) []
    orphan-Collected m u t is_member none_there = record {
      waiting = tt;
      bounded = omega arith;
      complete = λ p found there. elim found [
        | Memᴰ.head e ↦
            let (users, types) = member_inj p.user_id p.coupon_type_id u t (e ∙ is_member) in
            absurd (cc (there, users, types, none_there))
        | Memᴰ.tail x ↦ elim x [ ]
      ];
    }

    waiting-Collected :
        (m : String) (p : PendingIssue)
        → m ≡ pending_zset_member p.user_id p.coupon_type_id
        → IsWaiting cutoff s p
        → Collected cutoff s (m ∷ []) (p ∷ [])
    waiting-Collected m p is_member waits = record {
      waiting = (waits, tt);
      bounded = omega arith;
      complete = λ q found there. elim found [
        | Memᴰ.head e ↦
            let (users, types) =
              member_inj q.user_id q.coupon_type_id p.user_id p.coupon_type_id (e ∙ is_member) in
            let same : some q ≡ some p =
              sym there ∙ ap (λ u. s u q.coupon_type_id) users ∙ ap (s p.user_id) types ∙ waits.0 in
            Memᴰ.head (cc same)
        | Memᴰ.tail x ↦ elim x [ ]
      ];
    }

    -- An orphan is taken out of the sorted set.
    orphan-Collects :
        (m : String) (u t : ℤ) (ks : Keyspace)
        → AreExact u t
        → m ≡ pending_zset_member u t
        → s u t ≡ none
        → Represents ks s
        → Collects cutoff s (m ∷ []) (unless_orphan rounded redis m u t [] ks)
    orphan-Collects m u t ks exact is_member none_there r =
        let kept = unscored-Represents m u t ks exact is_member none_there r in
        elim (redis.zrem_lem m ks) [
          | Applies.applied e ↦
              rw e (
                collected [] (unscored m ks) (orphan-Collected m u t is_member none_there) kept
                  refl)
          | Applies.lost x e ↦ rw e (broken x (unscored m ks) kept refl)
          | Applies.failed x e ↦ rw e (broken x ks r refl)
        ]

    find_of_parts-member :
        (m : String) (u t : ℤ)
        → AreExact u t
        → m ≡ pending_zset_member u t
        → find_of_parts rounded redis m (split_colons m)
          ≡ (redis.hgetall (pending_hash u t) >>= unless_orphan rounded redis m u t)
    find_of_parts-member m u t exact is_member =
        rw
          (
            ap split_colons is_member ∙ split-pending_zset_member u t,
            parse_long_strict-show_int u exact.0,
            parse_long_strict-show_int t exact.1,
          )
          refl

    pub member-Collects :
        (m : String) (ks : Keyspace)
        → Due cutoff s m
        → Represents ks s
        → Collects cutoff s (m ∷ []) (find_of_parts rounded redis m (split_colons m) ks)
    member-Collects m ks (orphan u t exact is_member none_there) r =
        let at : At u t ks none = rw none_there at (r.entries u t) in
        rw (find_of_parts-member m u t exact is_member)
          (elim (redis.hgetall_lem (pending_hash u t) ks) [
            | Reads.read h fits e ↦
                rw (e, fits ∙ at) (orphan-Collects m u t ks exact is_member none_there r)
            | Reads.failed x e ↦ rw e (broken x ks r refl)
          ])
    member-Collects m ks (waiting p exact is_member waits) r =
        let at : Stores p.user_id p.coupon_type_id ks p =
          rw waits.0 at (r.entries p.user_id p.coupon_type_id) in
        rw (find_of_parts-member m p.user_id p.coupon_type_id exact is_member)
          (elim (redis.hgetall_lem (pending_hash p.user_id p.coupon_type_id) ks) [
            | Reads.read h fits e ↦
                rw
                  (
                    e,
                    fits,
                    unless_orphan-Holds redis m
                        (ks.hashes (pending_hash p.user_id p.coupon_type_id)) p ks at.holds,
                  )
                  (collected (p ∷ []) ks (waiting-Collected m p is_member waits) r refl)
            | Reads.failed x e ↦ rw e (broken x ks r refl)
          ])
