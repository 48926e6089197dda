-- ===== src/ServerB/RedisStore/Represents.antt =====
-- When Redis holds the applications of the port: one hash for each, with the texts of its fields, and a
-- member of the sorted set while it waits.
use mathlib.Core.Bool.{and-eq-true_iff}
use coupon_nestjs.Prelude.{
  ℕ, ℤ, ◌≡◌, refl, sym, ◌∙◌, inl, inr, String, true, false, ◌&&◌, Option, none, some, [], lookup,
  Bool-cases, ◌==◌, int_eq, int_beq_comm, string_eq, if◌then◌else◌,
}
use coupon_nestjs.Common.Text.{show_nat, show_int}
use coupon_nestjs.Common.Requests.{is_exact}
use coupon_nestjs.Effect.{Result}
use coupon_nestjs.ServerB.Pending.{PendingIssue, Pendings, Beside, done, broken}
use coupon_nestjs.ServerB.Pending as Pending
use coupon_nestjs.ServerB.Keys.{pending_hash, pending_zset_member}
use coupon_nestjs.ServerB.Keys.Apart.{same_member}
use coupon_nestjs.ServerB.Redis.{Fields, Keyspace}
use coupon_nestjs.ServerB.RedisStore.{status_text}
use coupon_nestjs.ServerB.RedisStore.Runs.{Spares, Runs, ran, broke}

pub record Holds (h : Fields) (p : PendingIssue) : Type 0 where
  pub request_id : lookup "requestId" h ≡ some p.request_id
  pub user : lookup "userId" h ≡ some (show_int p.user_id)
  pub event : lookup "eventId" h ≡ some (show_int p.event_id)
  pub coupon_type : lookup "couponTypeId" h ≡ some (show_int p.coupon_type_id)
  pub status : lookup "status" h ≡ some (status_text p.status)
  pub created_at : lookup "createdAt" h ≡ some (show_nat p.created_at)
  pub attempts : lookup "publishAttempts" h ≡ some (show_nat p.publish_attempts)
  pub last_published_at : lookup "lastPublishedAt" h ≡ some (show_nat p.last_published_at)
  pub code : lookup "code" h ≡ p.code

abbrev pub score_of : PendingIssue → Option ℕ
score_of p = if p.queued then some p.last_published_at else none

pub record Stores (u t : ℤ) (ks : Keyspace) (p : PendingIssue) : Type 0 where
  pub user : p.user_id ≡ u
  pub coupon_type : p.coupon_type_id ≡ t
  pub holds : Holds (ks.hashes (pending_hash u t)) p
  pub score : lookup (pending_zset_member u t) ks.zset ≡ score_of p

-- An application that is not there has no hash; its member may be left behind.
abbrev pub At : ℤ → ℤ → Keyspace → Option PendingIssue → Type 0
At u t ks none = ks.hashes (pending_hash u t) ≡ []
At u t ks (some p) = Stores u t ks p

-- Identifiers that a JavaScript number holds.
abbrev pub AreExact : ℤ → ℤ → Type 0
AreExact u t = (is_exact u ≡ true) × (is_exact t ≡ true)

-- Every member is that of a user and a coupon type.
abbrev pub AreMembers : Keyspace → Type 0
AreMembers ks =
    (m : String) (score : ℕ)
    → lookup m ks.zset ≡ some score
    → (u : ℤ) × (t : ℤ) × AreExact u t × (m ≡ pending_zset_member u t)

pub record Represents (ks : Keyspace) (s : Pendings) : Type 0 where
  pub entries : (u t : ℤ) → At u t ks (s u t)
  pub members : AreMembers ks

-- All but one application are represented.
pub record RepresentsBeside (u t : ℤ) (ks : Keyspace) (s : Pendings) : Type 0 where
  pub entries : (u' t' : ℤ) → (u' == u && t' == t) ≡ false → At u' t' ks (s u' t')
  pub members : AreMembers ks

-- What an operation of the port does, here.
abbrev pub Follows : {A : Type 0} → ℤ → ℤ → Pendings → Pendings → A → Result A × Keyspace → Type 0
Follows u t = Pending.Follows Represents (RepresentsBeside u t)

module _ (u t : ℤ) (ks ks' : Keyspace) (s : Spares u t ks ks') where
  At-Spares :
      (u' t' : ℤ) (o : Option PendingIssue)
      → (u' == u && t' == t) ≡ false
      → At u' t' ks o
      → At u' t' ks' o
  At-Spares u' t' none other at = s.hashes u' t' other ∙ at
  At-Spares u' t' (some p) other at = record {
    user = at.user;
    coupon_type = at.coupon_type;
    holds = rw (s.hashes u' t' other) at.holds;
    score =
        s.members (pending_zset_member u' t')
          (same_member u t u' t' ∙ rw (int_beq_comm u u', int_beq_comm t t') other)
        ∙ at.score;
  }

  AreMembers-Spares : AreExact u t → AreMembers ks → AreMembers ks'
  AreMembers-Spares exact all m score there = elim (Bool-cases (pending_zset_member u t == m)) [
    | inl same ↦ (u, t, exact, sym (string_eq.eq_of_same _ _ same))
    | inr other ↦ all m score (sym (s.members m other) ∙ there)
  ]

  -- What the application itself has become is told by its hash and its member.
  pub Represents-update :
      (before after : Pendings)
      → AreExact u t
      → Represents ks before
      → At u t ks' (after u t)
      → Beside u t before after
      → Represents ks' after
  Represents-update before after exact r now beside = record {
    entries = λ u' t'. elim (Bool-cases (u' == u && t' == t)) [
      | inl same ↦
          let (users, types) = (and-eq-true_iff _ _).0 same in
          rw (int_eq.eq_of_same u' u users, int_eq.eq_of_same t' t types) now
      | inr other ↦ rw (beside u' t' other) (At-Spares u' t' (before u' t') other (r.entries u' t'))
    ];
    members = AreMembers-Spares exact r.members;
  }

  -- What a sequence of commands comes to, by the hash and the member that it ends in.
  pub Represents-Beside :
      (before : Pendings) → AreExact u t → Represents ks before → RepresentsBeside u t ks' before
  Represents-Beside before exact r = record {
    entries = λ u' t' other. At-Spares u' t' (before u' t') other (r.entries u' t');
    members = AreMembers-Spares exact r.members;
  }

pub Follows-of_Runs :
    {A : Type 0} (u t : ℤ) (ks ks' : Keyspace) (a : A) (out : Result A × Keyspace)
    (before after : Pendings)
    → AreExact u t
    → Represents ks before
    → At u t ks' (after u t)
    → Beside u t before after
    → Runs u t a ks ks' out
    → Follows u t before after a out
Follows-of_Runs u t ks ks' a out before after exact r now beside (ran e s) =
    rw e (done refl (Represents-update u t ks ks' s before after exact r now beside))
Follows-of_Runs u t ks ks' a out before after exact r now beside (broke x k e s) =
    rw e (broken x refl (Represents-Beside u t ks k s before exact r))
