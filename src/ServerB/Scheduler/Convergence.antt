-- ===== src/ServerB/Scheduler/Convergence.antt =====
-- Every application is concluded: each cycle counts one more attempt until the cap is reached.
use coupon_nestjs.Prelude.{
  ℕ, ℤ, zero, suc, ◌+◌, ◌≡◌, ◌≤◌, refl, ap, ◌∙◌, String, true, false, Option, none, some, arith,
  if◌then◌else◌,
}
use coupon_nestjs.Common.Broker.{Broker}
use coupon_nestjs.Common.Payloads.{CouponIssueRequestPayload}
use coupon_nestjs.Effect.{ok}
use coupon_nestjs.ServerB.Pending.{
  PendingIssue, Pendings, PendingIssueStore, put, put_itself, republished,
}
use coupon_nestjs.ServerB.Pending.Up.{IsUp}
use coupon_nestjs.ServerB.Accept.{Desk}
use coupon_nestjs.ServerB.Scheduler.{UserCouponLookupResult, Lookup, attend}
use coupon_nestjs.ServerB.Scheduler.Attention.{
  is_final, Attends, concluding, counted, attend-Attends,
}

-- What a search gives of one application.
abbrev pub if_queued : Option PendingIssue → Option PendingIssue
if_queued none = none
if_queued (some p) = if p.queued then some p else none

if_queued-queued : (p : PendingIssue) → p.queued ≡ true → if_queued (some p) ≡ some p
if_queued-queued p h = simp h

module _ {S : Type 0} (store : PendingIssueStore S) (broker : Broker CouponIssueRequestPayload)
    (to_instant_string : ℕ → String) (max_publish_attempts : ℕ) where
  -- The store stands for some applications, of which this one has left the ZSET with a final status.
  pub record IsConcluded (u t : ℤ) (d : Desk S) : Type 0 where
    pub applications : Pendings
    pub represented : store.Represents d.pendings applications
    pub entry : PendingIssue
    pub stored : applications u t ≡ some entry
    pub left : entry.queued ≡ false
    pub final : is_final entry.status ≡ true

  IsConcluded-of :
      (p : PendingIssue) (d : Desk S) (now : ℕ) (s : Pendings)
      (a : Attends store broker to_instant_string max_publish_attempts now p s d)
      → a.entry.queued ≡ false
      → is_final a.entry.status ≡ true
      → IsConcluded p.user_id p.coupon_type_id d
  IsConcluded-of p d now s a left final = record {
    applications = put p.user_id p.coupon_type_id a.entry s;
    represented = a.represented;
    entry = a.entry;
    stored = put_itself p.user_id p.coupon_type_id a.entry s;
    left = left;
    final = final;
  }

  IsConcluded-at_cap :
      (p : PendingIssue) (now : ℕ) (d : Desk S) (s : Pendings)
      → Attends store broker to_instant_string max_publish_attempts now p s d
      → max_publish_attempts ≤ p.publish_attempts
      → IsConcluded p.user_id p.coupon_type_id d
  IsConcluded-at_cap p now d s a reached = elim a.becomes [
    | concluding left final ↦ IsConcluded-of p d now s a left final
    | counted below same ↦ absurd (ground arith)
  ]

  -- What the next cycles do to one application, each with its own answers and its own time: a cycle
  -- attends to what a search gives of it.
  module _ (found : S → Option PendingIssue) where
    abbrev attend_if_found : Lookup → ℕ → Option PendingIssue → Desk S → Desk S
    attend_if_found lookup now none d = d
    attend_if_found lookup now (some p) d =
        (attend store broker to_instant_string max_publish_attempts lookup now p d).1

    unfoldable pub cycles : (ℕ → Lookup) → (ℕ → ℕ) → ℕ → Desk S → Desk S
    cycles lookups times zero d = d
    cycles lookups times (suc n) d =
        cycles lookups times n (attend_if_found (lookups n) (times n) (found d.pendings) d)

    -- A search gives an application while the ZSET has it.
    abbrev pub Finds : ℤ → ℤ → Type 0
    Finds u t = (x : S) (s : Pendings) → store.Represents x s → found x ≡ if_queued (s u t)

    IsConcluded-cycles :
        (lookups : ℕ → Lookup) (times : ℕ → ℕ) (u t : ℤ) (n : ℕ) (d : Desk S)
        → Finds u t
        → IsConcluded u t d
        → IsConcluded u t (cycles lookups times n d)
    unfolding cycles
    IsConcluded-cycles lookups times u t zero d finds c = c
    IsConcluded-cycles lookups times u t (suc n) d finds c =
        rw (finds d.pendings c.applications c.represented, c.stored, c.left)
          (IsConcluded-cycles lookups times u t n d finds c)

    -- While the store is up and server-c answers, an application of the store that a search gives as
    -- long as the ZSET has it is concluded within one cycle more than the attempts that are left to
    -- the cap: it has then left the ZSET with a final status, whatever became of the messages.
    pub cycles-IsConcluded :
        (lookups : ℕ → Lookup) (times : ℕ → ℕ) (p : PendingIssue) (n : ℕ) (d : Desk S)
        (s : Pendings)
        → IsUp store
        → Finds p.user_id p.coupon_type_id
        → store.Handles p.user_id p.coupon_type_id
        → ((k : ℕ)
            → (a : Option UserCouponLookupResult) × (lookups k p.user_id p.coupon_type_id ≡ ok a))
        → store.Represents d.pendings s
        → s p.user_id p.coupon_type_id ≡ some p
        → p.queued ≡ true
        → max_publish_attempts ≤ p.publish_attempts + n
        → IsConcluded p.user_id p.coupon_type_id (cycles lookups times (suc n) d)
    unfolding cycles
    cycles-IsConcluded lookups times p zero d s up finds handles says r there queued enough =
        let (a, says_a) = says 0 in
        rw (finds d.pendings s r, there, if_queued-queued p queued)
          (IsConcluded-at_cap p (times 0) _ s
            (attend-Attends store broker to_instant_string max_publish_attempts up (times 0) p d s
              handles r there (lookups 0) a says_a)
            (omega arith))
    cycles-IsConcluded lookups times p (suc n) d s up finds handles says r there queued enough =
        let (a, says_a) = says (suc n) in
        rw (finds d.pendings s r, there, if_queued-queued p queued)
          (let att =
              attend-Attends store broker to_instant_string max_publish_attempts up (times (suc n))
                p d s handles r there (lookups (suc n)) a says_a in
            elim att.becomes [
              | concluding left final ↦
                  IsConcluded-cycles lookups times p.user_id p.coupon_type_id (suc n) _ finds
                    (IsConcluded-of p _ _ s att left final)
              | counted below same ↦
                  cycles-IsConcluded lookups times (republished p (times (suc n))) n _
                    (put p.user_id p.coupon_type_id att.entry s) up finds handles says
                    att.represented
                    (put_itself p.user_id p.coupon_type_id att.entry s ∙ ap some same) refl
                    (omega arith)
            ])
