-- ===== src/ServerC/Redeem/Refinement.antt =====
-- What `redeem` does on each branch: to the database, and in what it returns or throws.

use mathlib.Core.List.{Memᴰ}
use coupon_nestjs.Prelude.{
  ℕ, ◌≡◌, refl, sym, Bool, true, false, Option, none, some, map, find?, count_if, arith, inl, inr,
  ◌==◌, int_eq, nat_eq, ==_refl, Bool-cases, Mem-find?, count_if_of_Mem,
}
use coupon_nestjs.Common.Errors.{Exception}
use coupon_nestjs.Common.Statuses.{is_success}
use coupon_nestjs.Effect.{Result, ok, thrown}
use coupon_nestjs.ServerC.Schema.{UserCouponRow, Db}
use coupon_nestjs.ServerC.Domain.{coupon_of_row, is_redeemable}
use coupon_nestjs.ServerC.Engine.{
  Engine, Reads, Writes, Commits, IsFault, has_code, has_version, set_used,
}
use coupon_nestjs.ServerC.Repositories.{mark_used, find_by_code}
use coupon_nestjs.ServerC.Redeem.{
  RedeemCommand, RedeemResult, succeeded, already_redeemed, not_found, not_redeemable, claim,
  redeem_owned, redeem_body, redeem,
}

abbrev pub after_use : UserCouponRow → ℕ → Db → Db
after_use row now db = record db {
  user_coupon = map (set_used row.user_coupon_id row.version now) db.user_coupon;
}

row-count_ne_zero :
    (db : Db) (row : UserCouponRow)
    → Memᴰ row db.user_coupon
    → (count_if (has_version row.user_coupon_id row.version) db.user_coupon == 0) ≡ false
row-count_ne_zero db row m =
    let itself : has_version row.user_coupon_id row.version row ≡ true =
      rw (==_refl row.user_coupon_id, ==_refl row.version) in
    ground
      (arith, count_if_of_Mem (has_version row.user_coupon_id row.version) db.user_coupon m itself)

pub redeemable_of :
    (row : UserCouponRow) (b : Bool)
    → row.used_at ≡ none
    → is_success row.status ≡ b
    → is_redeemable (coupon_of_row row) ≡ b
redeemable_of row b e h = ground arith

module _ (command : RedeemCommand) (now : ℕ) where
  -- The row of the code, if it belongs to the requester.
  pub record Owned (db : Db) (row : UserCouponRow) : Type 0 where
    pub found : find? (has_code db command.code) db.user_coupon ≡ some row
    pub owned : (row.user_id == command.user_id) ≡ true

  pub data Redeemed (db : Db) (out : Result RedeemResult × Db) : Type 0 where
    missing :
        find? (has_code db command.code) db.user_coupon ≡ none
        → out ≡ (thrown (not_found command.code), db)
        → Redeemed db out
    masked :
        (row : UserCouponRow)
        → find? (has_code db command.code) db.user_coupon ≡ some row
        → (row.user_id == command.user_id) ≡ false
        → out ≡ (thrown (not_found command.code), db)
        → Redeemed db out
    replayed :
        (row : UserCouponRow) (used_at : ℕ)
        → Owned db row
        → row.used_at ≡ some used_at
        → out ≡ (ok (already_redeemed row.code row.user_id used_at), db)
        → Redeemed db out
    refused :
        (row : UserCouponRow)
        → Owned db row
        → row.used_at ≡ none
        → is_success row.status ≡ false
        → out ≡ (thrown (not_redeemable (coupon_of_row row)), db)
        → Redeemed db out
    won :
        (row : UserCouponRow)
        → Owned db row
        → row.used_at ≡ none
        → is_success row.status ≡ true
        → out ≡ (ok (succeeded row.code row.user_id now), after_use row now db)
        → Redeemed db out
    fault : (e : Exception) → IsFault e → out ≡ (thrown e, db) → Redeemed db out

  module _ (em : Engine) where
    claim-Redeemed :
        (db : Db) (row : UserCouponRow)
        → Owned db row
        → row.used_at ≡ none
        → is_success row.status ≡ true
        → Redeemed db (claim em command now (coupon_of_row row) db)
    unfolding claim mark_used
    claim-Redeemed db row o unused success =
        elim (em.update_used_lem row.user_coupon_id row.version now db) [
          | Writes.wrote a db' (counted, stored) e ↦
              rw (e, counted, stored, row-count_ne_zero db row (Mem-find? _ db.user_coupon o.found))
                (won row o unused success refl)
          | Writes.fault x f e ↦ rw e (fault x f refl)
        ]

    redeem_owned-Redeemed :
        (db : Db) (row : UserCouponRow) (used_at : Option ℕ)
        → Owned db row
        → row.used_at ≡ used_at
        → Redeemed db (redeem_owned em command now (coupon_of_row row) used_at db)
    redeem_owned-Redeemed db row (some t) o e = replayed row t o e refl
    redeem_owned-Redeemed db row none o e = elim (Bool-cases (is_success row.status)) [
      | inl success ↦ rw (redeemable_of row true e success) (claim-Redeemed db row o e success)
      | inr other ↦ rw (redeemable_of row false e other) (refused row o e other refl)
    ]

    redeem_body-Redeemed : (db : Db) → Redeemed db (redeem_body em command now db)
    unfolding redeem_body find_by_code
    redeem_body-Redeemed db = elim (em.find_coupon_by_code_lem command.code db) [
      | Reads.read none fits e ↦ rw e (missing (sym fits) refl)
      | Reads.read (some row) fits e ↦ rw e (elim (Bool-cases (row.user_id == command.user_id)) [
        | inl owned ↦ rw owned (
            redeem_owned-Redeemed db row row.used_at (record { found = sym fits; owned = owned })
              refl)
        | inr other ↦ rw other (masked row (sym fits) other refl)
      ])
      | Reads.fault x f e ↦ rw e (fault x f refl)
    ]

    -- A body that threw has changed nothing.
    Redeemed-thrown : {db db' : Db} {x : Exception} → Redeemed db (thrown x, db') → db' ≡ db
    Redeemed-thrown (missing n e) = cc e
    Redeemed-thrown (masked row f n e) = cc e
    Redeemed-thrown (replayed row t o u e) = absurd (cc e)
    Redeemed-thrown (refused row o u s e) = cc e
    Redeemed-thrown (won row o u s e) = absurd (cc e)
    Redeemed-thrown (fault x f e) = cc e

    -- Every call of `redeem` with no other transaction between its statements comes to one of six: the code is missing or the coupon another user's (one
    -- exception for both), it was used before (its time is returned), it was not issued, it is used now
    -- (the only one that changes the database), or a statement failed.
    pub redeem_lem : (db : Db) → Redeemed db (redeem em command now db)
    unfolding redeem
    redeem_lem db = elim (em.transaction_lem RedeemResult (redeem_body em command now) db) [
      | Commits.committed a db' ran e ↦ rw (e, ← ran) (redeem_body-Redeemed db)
      | Commits.rolled_back x db' ran e ↦
          let kept = Redeemed-thrown (rw ran at (redeem_body-Redeemed db)) in
          let same : em.transaction RedeemResult (redeem_body em command now) db
              ≡ redeem_body em command now db =
            cc in
          rw same (redeem_body-Redeemed db)
      | Commits.fault x f e ↦ rw e (fault x f refl)
    ]
