-- ===== src/ServerC/Redeem/Late.antt =====
-- A call of `redeem` on every branch, also with what other calls do between its reading and its UPDATE.
use mathlib.Core.Option
use coupon_nestjs.Prelude.{
  ℕ, ℤ, ◌≡◌, ◌≢◌, refl, List, [], ◌∷◌, true, false, Option, none, some, map, count_if, inl, inr,
  ◌==◌, int_eq, nat_eq, Bool-cases, arith,
}
use coupon_nestjs.Common.Errors.{Exception}
use coupon_nestjs.Common.Statuses.{is_success}
use coupon_nestjs.Effect.{Result, ok, thrown}
use coupon_nestjs.ServerC.Schema.{UserCouponRow, Db}
use coupon_nestjs.ServerC.Domain.{coupon_of_row}
use coupon_nestjs.ServerC.Engine.{Engine, Writes, IsFault, has_version, set_used}
use coupon_nestjs.ServerC.Repositories.{mark_used}
use coupon_nestjs.ServerC.Redeem.{
  RedeemCommand, RedeemResult, succeeded, already_redeemed, not_found, not_redeemable, lost_race,
  claim, redeem_owned, redeem_found, redeem,
}
use coupon_nestjs.ServerC.Redeem.Refinement.{after_use, Redeemed, redeemable_of, redeem_lem}

-- An UPDATE that finds no row changes none.
set_used-none :
    (id : ℤ) (version now : ℕ) (rows : List UserCouponRow)
    → count_if (has_version id version) rows ≡ 0
    → map (set_used id version now) rows ≡ rows
set_used-none id version now [] h = refl
set_used-none id version now (x ∷ rows) h = elim (Bool-cases (has_version id version x)) [
  | inl hit ↦ absurd (omega (arith, rw hit at h))
  | inr other ↦ rw (other, set_used-none id version now rows (omega (arith, rw other at h)))
]

module _ (command : RedeemCommand) (now : ℕ) where
  -- What a call comes to that has read `read`, when the database is at `db` by now.
  pub data Late (read : Option UserCouponRow) (db : Db) (out : Result RedeemResult × Db)
      : Type 0 where
    missing : read ≡ none → out ≡ (thrown (not_found command.code), db) → Late read db out
    masked :
        (row : UserCouponRow)
        → read ≡ some row
        → (row.user_id == command.user_id) ≡ false
        → out ≡ (thrown (not_found command.code), db)
        → Late read db out
    replayed :
        (row : UserCouponRow) (used_at : ℕ)
        → read ≡ some row
        → (row.user_id == command.user_id) ≡ true
        → row.used_at ≡ some used_at
        → out ≡ (ok (already_redeemed row.code row.user_id used_at), db)
        → Late read db out
    refused :
        (row : UserCouponRow)
        → read ≡ some row
        → (row.user_id == command.user_id) ≡ true
        → row.used_at ≡ none
        → is_success row.status ≡ false
        → out ≡ (thrown (not_redeemable (coupon_of_row row)), db)
        → Late read db out
    -- No row has the version any more that was read.
    lost :
        (row : UserCouponRow)
        → read ≡ some row
        → (row.user_id == command.user_id) ≡ true
        → row.used_at ≡ none
        → is_success row.status ≡ true
        → count_if (has_version row.user_coupon_id row.version) db.user_coupon ≡ 0
        → out ≡ (thrown (lost_race command.code row.version), db)
        → Late read db out
    won :
        (row : UserCouponRow)
        → read ≡ some row
        → (row.user_id == command.user_id) ≡ true
        → row.used_at ≡ none
        → is_success row.status ≡ true
        → count_if (has_version row.user_coupon_id row.version) db.user_coupon ≢ 0
        → out ≡ (ok (succeeded row.code row.user_id now), after_use row now db)
        → Late read db out
    fault : (e : Exception) → IsFault e → out ≡ (thrown e, db) → Late read db out

  module _ (em : Engine) (db : Db) where
    claim-Late :
        (row : UserCouponRow)
        → (row.user_id == command.user_id) ≡ true
        → row.used_at ≡ none
        → is_success row.status ≡ true
        → Late (some row) db (claim em command now (coupon_of_row row) db)
    unfolding claim mark_used
    claim-Late row owned unused success =
        elim (em.update_used_lem row.user_coupon_id row.version now db) [
          | Writes.fault x f e ↦ rw e (fault x f refl)
          | Writes.wrote a db' (counted, stored) e ↦
              let n = count_if (has_version row.user_coupon_id row.version) db.user_coupon in
              elim (Bool-cases (n == 0)) [
                | inl gone ↦
                    let zero : n ≡ 0 = ground (arith, gone) in
                    rw
                      (
                        e,
                        counted,
                        stored,
                        gone,
                        set_used-none row.user_coupon_id row.version now db.user_coupon zero,
                      )
                      (lost row refl owned unused success zero refl)
                | inr there ↦
                    rw (e, counted, stored, there)
                      (won row refl owned unused success (λ h. ground (arith, there, h)) refl)
              ]
        ]

    redeem_owned-Late :
        (row : UserCouponRow) (used_at : Option ℕ)
        → (row.user_id == command.user_id) ≡ true
        → row.used_at ≡ used_at
        → Late (some row) db (redeem_owned em command now (coupon_of_row row) used_at db)
    redeem_owned-Late row (some t) owned e = replayed row t refl owned e refl
    redeem_owned-Late row none owned e = elim (Bool-cases (is_success row.status)) [
      | inl success ↦ rw (redeemable_of row true e success) (claim-Late row owned e success)
      | inr other ↦ rw (redeemable_of row false e other) (refused row refl owned e other refl)
    ]

    redeem_found-Late :
        (read : Option UserCouponRow)
        → Late read db (redeem_found em command now (Option.map coupon_of_row read) db)
    redeem_found-Late none = missing refl refl
    redeem_found-Late (some row) = elim (Bool-cases (row.user_id == command.user_id)) [
      | inl owned ↦ rw owned (redeem_owned-Late row row.used_at owned refl)
      | inr other ↦ rw other (masked row refl other refl)
    ]

    -- A call of `redeem` with no other transaction between its statements comes to one of six: the code
    -- is missing or the coupon another user's (one exception for both), it was used before (its time is
    -- returned), it was not issued, it is used now (the only one that changes the database), or a
    -- statement failed. A call whose reading, of whatever row, was followed by other transactions comes
    -- to the same by that row, or, when no row has the version any more that it read, it throws
    -- `OptimisticLockFailure` and changes nothing.
    pub redeem-Late :
        (read : Option UserCouponRow)
        → Redeemed command now db (redeem em command now db)
          × Late read db (redeem_found em command now (Option.map coupon_of_row read) db)
    redeem-Late read = (redeem_lem command now em db, redeem_found-Late read)
