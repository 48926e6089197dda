-- ===== src/ServerC/Redeem/Twice.antt =====
-- A second use of a coupon: a repeated call is answered with the first use, and of two calls that read
-- the same unused row the later UPDATE changes nothing.
use mathlib.Core.Option
use coupon_nestjs.Prelude.{
  ℕ, ℤ, ◌≡◌, String, refl, ap, ◌∙◌, ◌+◌, ◌⊎◌, inl, inr, List, [], ◌∷◌, map, true, false, Option,
  none, some, find?, find?-map, count_if, arith, ◌==◌, int_eq, nat_eq, ==_refl, Bool-cases,
}
use coupon_nestjs.Common.Errors.{Exception}
use coupon_nestjs.Common.Statuses.{UserCouponStatus, is_success}
use coupon_nestjs.Effect.{Result, ok, thrown, ok-inj}
use coupon_nestjs.ServerC.Schema.{UserCouponRow, Db}
use coupon_nestjs.ServerC.Domain.{coupon_of_row}
use coupon_nestjs.ServerC.Engine.{Engine, Writes, IsFault, has_code, has_version, set_used}
use coupon_nestjs.ServerC.Repositories.{mark_used}
use coupon_nestjs.ServerC.Redeem.{
  RedeemCommand, RedeemResult, succeeded, already_redeemed, lost_race, claim, redeem, redeem_owned,
  redeem_found,
}
use coupon_nestjs.ServerC.Redeem.Refinement.{
  after_use, Owned, Redeemed, missing, masked, replayed, refused, won, fault, redeem_lem,
  redeemable_of,
}

hit_itself : (row : UserCouponRow) → has_version row.user_coupon_id row.version row ≡ true
hit_itself row = rw (==_refl row.user_coupon_id, ==_refl row.version)

-- The UPDATE does not touch what the code of a row is found by.
code-use :
    (db : Db) (id : ℤ) (version now : ℕ) (code : String) (rows : List UserCouponRow)
    → find? (has_code db code) (map (set_used id version now) rows)
      ≡ Option.map (set_used id version now) (find? (has_code db code) rows)
code-use db id version now code rows =
    find?-map (has_code db code) (set_used id version now) rows
      λ x. elim (Bool-cases (has_version id version x)) [ inl hit ↦ rw hit | inr other ↦ rw other ]

missed-use :
    (id : ℤ) (version now : ℕ) (x : UserCouponRow)
    → has_version id version (set_used id version now x) ≡ false
missed-use id version now x = elim (Bool-cases (has_version id version x)) [
  | inl hit ↦ rw hit (ground arith)
  | inr other ↦ rw (other, other)
]

count-missed :
    (id : ℤ) (version now : ℕ) (rows : List UserCouponRow)
    → count_if (has_version id version) (map (set_used id version now) rows) ≡ 0
count-missed id version now [] = refl
count-missed id version now (x ∷ rows) =
    rw (missed-use id version now x, count-missed id version now rows)

map-missed :
    (id : ℤ) (version now later : ℕ) (rows : List UserCouponRow)
    → map (set_used id version later) (map (set_used id version now) rows)
      ≡ map (set_used id version now) rows
map-missed id version now later [] = refl
map-missed id version now later (x ∷ rows) =
    rw (missed-use id version now x, map-missed id version now later rows)

-- What a call that returned has left: the used row, of the requester.
record Held (command : RedeemCommand) (r : RedeemResult) (db : Db) : Type 0 where
  row : UserCouponRow
  found : find? (has_code db command.code) db.user_coupon ≡ some row
  owned : (row.user_id == command.user_id) ≡ true
  used : row.used_at ≡ some r.redeemed_at
  code_same : row.code ≡ r.code
  user_same : row.user_id ≡ r.user_id

module _ (command : RedeemCommand) (now : ℕ) where
  won-Held :
      (db : Db) (row : UserCouponRow)
      → Owned command now db row
      → Held command (succeeded row.code row.user_id now) (after_use row now db)
  won-Held db row o = record {
    row = record row {
      status = UserCouponStatus.used;
      used_at = some now;
      version = row.version + 1;
    };
    found =
        code-use db row.user_coupon_id row.version now command.code db.user_coupon
        ∙ ap (Option.map (set_used row.user_coupon_id row.version now)) o.found
        ∙ ap some (rw (hit_itself row));
    owned = o.owned;
    used = refl;
    code_same = refl;
    user_same = refl;
  }

  Redeemed-Held :
      (db : Db) (r : RedeemResult) (db' : Db)
      → Redeemed command now db (ok r, db')
      → Held command r db'
  Redeemed-Held db r db' (missing n e) = absurd (cc e)
  Redeemed-Held db r db' (masked row f n e) = absurd (cc e)
  Redeemed-Held db r db' (replayed row t o used e) =
      rw (ok-inj (ap (λ p. p.0) e), ap (λ p. p.1) e)
        (record {
          row = row;
          found = o.found;
          owned = o.owned;
          used = used;
          code_same = refl;
          user_same = refl;
        })
  Redeemed-Held db r db' (refused row o n x e) = absurd (cc e)
  Redeemed-Held db r db' (won row o n x e) =
      rw (ok-inj (ap (λ p. p.0) e), ap (λ p. p.1) e) (won-Held db row o)
  Redeemed-Held db r db' (fault x f e) = absurd (cc e)

  -- A call that finds a used row of the requester.
  Held-Redeemed :
      (db : Db) (r : RedeemResult) (out : Result RedeemResult × Db)
      → Held command r db
      → Redeemed command now db out
      → (out ≡ (ok (already_redeemed r.code r.user_id r.redeemed_at), db))
        ⊎ ((e : Exception) × IsFault e × (out ≡ (thrown e, db)))
  Held-Redeemed db r out h (missing n e) = absurd (cc (h.found, n))
  Held-Redeemed db r out h (masked row f n e) =
      let one : h.row ≡ row = cc (h.found, f) in absurd (cc (one, h.owned, n))
  Held-Redeemed db r out h (replayed row t o used e) =
      let one : h.row ≡ row = cc (h.found, o.found) in
      let first : t ≡ r.redeemed_at = cc (h.used, used, one) in
      inl (rw (← h.code_same, ← h.user_same, ← first, one) e)
  Held-Redeemed db r out h (refused row o n x e) =
      let one : h.row ≡ row = cc (h.found, o.found) in absurd (cc (h.used, n, one))
  Held-Redeemed db r out h (won row o n x e) =
      let one : h.row ≡ row = cc (h.found, o.found) in absurd (cc (h.used, n, one))
  Held-Redeemed db r out h (fault x f e) = inr (x, f, e)

module _ (em : Engine) (command : RedeemCommand) where
  -- After a call of `redeem` that returned, the same call at any time returns the first use again,
  -- with its time, as no new one, and changes nothing; unless a statement fails, which changes nothing
  -- either.
  pub redeem_twice :
      (now later : ℕ) (db : Db) (r : RedeemResult) (db' : Db)
      → redeem em command now db ≡ (ok r, db')
      → (redeem em command later db' ≡ (ok (already_redeemed r.code r.user_id r.redeemed_at), db'))
        ⊎ ((e : Exception) × IsFault e × (redeem em command later db' ≡ (thrown e, db')))
  redeem_twice now later db r db' ran =
      Held-Redeemed command later db' r _
        (Redeemed-Held command now db r db' (rw ran at (redeem_lem command now em db)))
        (redeem_lem command later em db')

  -- Two calls read the same unused row: when the UPDATE of one has run, that of the other throws
  -- `OptimisticLockFailure` and changes nothing, unless the statement fails.
  pub claim_lost :
      (now later : ℕ) (row : UserCouponRow) (db : Db)
      → let raced : Db = after_use row now db in
        (claim em command later (coupon_of_row row) raced
          ≡ (thrown (lost_race command.code row.version), raced))
        ⊎ ((e : Exception) × IsFault e
            × (claim em command later (coupon_of_row row) raced ≡ (thrown e, raced)))
  unfolding claim mark_used
  claim_lost now later row db =
      elim (em.update_used_lem row.user_coupon_id row.version later (after_use row now db)) [
        | Writes.wrote a db' (counted, after) e ↦ inl (
            rw (
              e,
              counted,
              after,
              count-missed row.user_coupon_id row.version now db.user_coupon,
              map-missed row.user_coupon_id row.version now later db.user_coupon,
            ))
        | Writes.fault x f e ↦ rw e (inr (x, f, refl))
      ]

  -- What is left to do of a call that has read `row`, in the state that the call at `now` left.
  abbrev pub Overtaken : ℕ → UserCouponRow → Db → Type 0
  Overtaken later row db' =
      (redeem_found em command later (some (coupon_of_row row)) db'
        ≡ (thrown (lost_race command.code row.version), db'))
      ⊎ ((e : Exception) × IsFault e
          × (redeem_found em command later (some (coupon_of_row row)) db' ≡ (thrown e, db')))

  redeem_owned-claim :
      (later : ℕ) (row : UserCouponRow) (db : Db) (used_at : Option ℕ)
      → row.used_at ≡ none
      → is_success row.status ≡ true
      → used_at ≡ none
      → redeem_owned em command later (coupon_of_row row) used_at db
        ≡ claim em command later (coupon_of_row row) db
  redeem_owned-claim later row db (some t) unused success h = absurd (cc h)
  redeem_owned-claim later row db none unused success h =
      rw (redeemable_of row true unused success) refl

  won-Overtaken :
      (now later : ℕ) (db : Db) (row : UserCouponRow)
      → Owned command now db row
      → row.used_at ≡ none
      → is_success row.status ≡ true
      → Overtaken later row (after_use row now db)
  won-Overtaken now later db row o unused success =
      rw
        (
          o.owned,
          redeem_owned-claim later row (after_use row now db) row.used_at unused success unused,
        )
        (claim_lost now later row db)

  Redeemed-Overtaken :
      (now later : ℕ) (db db' : Db) (row : UserCouponRow) (r : RedeemResult)
      → Owned command now db row
      → r.newly_redeemed ≡ true
      → Redeemed command now db (ok r, db')
      → Overtaken later row db'
  Redeemed-Overtaken now later db db' row r o newly (missing n e) = absurd cc
  Redeemed-Overtaken now later db db' row r o newly (masked x f n e) = absurd cc
  Redeemed-Overtaken now later db db' row r o newly (replayed x t o' used e) =
      absurd (cc (ap (λ y. y.newly_redeemed) (ok-inj (ap (λ q. q.0) e)), newly))
  Redeemed-Overtaken now later db db' row r o newly (refused x o' n w e) = absurd (cc e)
  Redeemed-Overtaken now later db db' row r o newly (won x o' unused success e) =
      let one : x ≡ row = cc (o.found, o'.found) in
      rw (ap (λ q. q.1) e, one)
        (won-Overtaken now later db row o (rw one at unused) (rw one at success))
  Redeemed-Overtaken now later db db' row r o newly (fault x f e) = absurd (cc e)

  -- A call has read the row of the code, of its requester, when another call of his comes in between and
  -- uses the coupon: what is left of the first call throws `OptimisticLockFailure` and changes nothing,
  -- unless a statement fails, which changes nothing either.
  pub redeem-Overtaken :
      (now later : ℕ) (db db' : Db) (row : UserCouponRow) (r : RedeemResult)
      → Owned command now db row
      → redeem em command now db ≡ (ok r, db')
      → r.newly_redeemed ≡ true
      → Overtaken later row db'
  redeem-Overtaken now later db db' row r o ran newly =
      Redeemed-Overtaken now later db db' row r o newly (rw ran at (redeem_lem command now em db))
