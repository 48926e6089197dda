-- ===== src/Contract/Redeeming.antt =====
-- What a user is answered who uses a coupon: redeem-coupon.controller.ts with the filter of server-c.
use Prim.Native.String.{[], ◌∷◌}
use coupon_nestjs.Prelude.{
  ℕ, ℤ, ◌≡◌, refl, inl, inr, String, Bool, true, false, Option, none, some, is_positive, Bool-cases,
  ◌⊎◌,
}
use coupon_nestjs.Common.Errors.{
  Exception, common, domain, http, query_failed, plain, driver, missing_header, type_mismatch,
  invalid_argument,
}
use coupon_nestjs.Common.Http.{
  Reply, success, ErrorCode, not_found_message, internal_error_message, race_retry_message,
}
use coupon_nestjs.Common.Filter.{catch_exception, map_common_error, map_missing_header}
use coupon_nestjs.Common.Text.{◌<+>◌, show_int, is_blank}
use coupon_nestjs.Common.Requests.{user_id_of, number_or_mismatch, read_long}
use coupon_nestjs.Common.Statuses.{is_success}
use coupon_nestjs.Effect.{Result, ok, thrown, pure, ◌>>=◌}
use coupon_nestjs.ServerC.Schema.{UserCouponRow, Db}
use coupon_nestjs.ServerC.Domain.{coupon_of_row}
use coupon_nestjs.ServerC.Redeem.Twice.{redeem-Overtaken}
use coupon_nestjs.ServerC.Engine.{Engine, IsFault}
use coupon_nestjs.ServerC.Filter as C
use coupon_nestjs.ServerC.Redeem as Redeem
use coupon_nestjs.ServerC.Redeem.{
  RedeemCommand, RedeemResult, redeem_command, status_text, succeeded, already_redeemed,
}
use coupon_nestjs.ServerC.Redeem.Refinement.{
  Owned, Redeemed, after_use, missing, masked, replayed, refused, won, fault, redeem_lem,
}
use coupon_nestjs.ServerC.Controllers.{RedeemCouponView, to_redeem_view, redeem}
use coupon_nestjs.Contract.Replies.{failed_reply, unexpected_reply, IsHidden}

-- The answer of a controller, or that of the filter.
abbrev pub reply_of : {T S : Type 0} → (ℕ → Option String) → Result T × S → Reply T × S
reply_of status_name (ok a, s) = (record { status = 200; retry_after = none; body = success a }, s)
reply_of status_name (thrown e, s) = (catch_exception status_name C.map_domain e, s)

module _ (status_name : ℕ → Option String) (text : ℕ → String) (rounded : ℤ → ℤ) (now : ℕ)
    (code : String) (header : Option String) where
  -- 200 with the code and the owner of a row, the time of its use, and whether this is the first use.
  abbrev pub answer : UserCouponRow → ℕ → Bool → Reply RedeemCouponView
  answer row used_at newly = record {
    status = 200;
    retry_after = none;
    body = success (record {
      code = row.code;
      user_id = row.user_id;
      redeemed_at = text used_at;
      newly_redeemed = newly;
    });
  }

  -- The request of a user for the code is well formed.
  abbrev pub Asks : RedeemCommand → Type 0
  Asks command =
      (u : ℤ) × (user_id_of rounded header ≡ ok u) × (redeem_command (some code) u ≡ ok command)

  pub data Replies (em : Engine) (db : Db) (out : Reply RedeemCouponView × Db) : Type 0 where
    malformed :
        ((command : RedeemCommand) → Asks command → ⊥)
        → out.0.status ≡ 400
        → out.1 ≡ db
        → Replies em db out
    hidden :
        (command : RedeemCommand)
        → Asks command
        → IsHidden command db
        → out ≡ (failed_reply 404 ErrorCode.not_found not_found_message, db)
        → Replies em db out
    again :
        (command : RedeemCommand) (row : UserCouponRow) (used_at : ℕ)
        → Asks command
        → Owned command now db row
        → row.used_at ≡ some used_at
        → out ≡ (answer row used_at false, db)
        → Replies em db out
    unusable :
        (command : RedeemCommand) (row : UserCouponRow)
        → Asks command
        → Owned command now db row
        → row.used_at ≡ none
        → is_success row.status ≡ false
        → out ≡ (
          failed_reply 409 ErrorCode.invalid_state
              ("coupon is not redeemable: status=" <+> status_text row.status),
          db,
        )
        → Replies em db out
    used :
        (command : RedeemCommand) (row : UserCouponRow)
        → Asks command
        → Owned command now db row
        → row.used_at ≡ none
        → is_success row.status ≡ true
        → out ≡ (answer row now true, after_use row now db)
        → Replies em db out
    -- A statement of the call failed.
    failed :
        (command : RedeemCommand) (e : Exception)
        → Asks command
        → IsFault e
        → Redeem.redeem em command now db ≡ (thrown e, db)
        → out ≡ (failed_reply 500 ErrorCode.internal_error internal_error_message, db)
        → Replies em db out

  fault-reply :
      (e : Exception)
      → IsFault e
      → catch_exception status_name C.map_domain {T = RedeemCouponView} e
        ≡ failed_reply 500 ErrorCode.internal_error internal_error_message
  fault-reply (query_failed q) f =
      (unexpected_reply status_name {T = RedeemCouponView} (query_failed q) refl).2
  fault-reply (driver m) f = (unexpected_reply status_name {T = RedeemCouponView} (driver m) refl).2
  fault-reply (plain m) f = elim f [ ]
  fault-reply (common x) f = elim f [ ]
  fault-reply (domain x) f = elim f [ ]
  fault-reply (http x) f = elim f [ ]

  abbrev status_of : Exception → ℕ
  status_of e = (catch_exception status_name C.map_domain {T = RedeemCouponView} e).status

  mismatch-status :
      (name : String) (o : Option ℤ) (e : Exception)
      → number_or_mismatch rounded name o ≡ thrown e
      → status_of e ≡ 400
  unfolding catch_exception C.map_domain map_common_error
  mismatch-status name none e h = let same : e ≡ common (type_mismatch name) = cc h in rw same refl
  mismatch-status name (some n) e h = absurd (cc h)

  user_id_of-status :
      (value : Option String) (e : Exception)
      → user_id_of rounded value ≡ thrown e
      → status_of e ≡ 400
  unfolding user_id_of catch_exception C.map_domain map_common_error map_missing_header
  user_id_of-status none e h =
      let same : e ≡ common (missing_header "X-User-Id") = cc h in rw same refl
  user_id_of-status (some []) e h =
      let same : e ≡ common (missing_header "X-User-Id") = cc h in rw same refl
  user_id_of-status (some (c ∷ s)) e h = mismatch-status "userId" (read_long (c ∷ s)) e h

  redeem_command-status :
      (u : ℤ) (e : Exception) → redeem_command (some code) u ≡ thrown e → status_of e ≡ 400
  unfolding redeem_command catch_exception C.map_domain map_common_error
  redeem_command-status u e h = elim (Bool-cases (is_blank code)) [
    | inl blank ↦
        let same : e ≡ common (invalid_argument "code must not be blank") = cc (rw blank at h) in
        rw same refl
    | inr filled ↦ elim (Bool-cases (is_positive u)) [
      | inl positive ↦ absurd (cc (rw (filled, positive) at h))
      | inr not_positive ↦
          let same : e
              ≡ common (invalid_argument ("userId must be positive but was " <+> show_int u)) =
            cc (rw (filled, not_positive) at h) in
          rw same refl
    ]
  ]

  not_asked_user :
      (e : Exception)
      → user_id_of rounded header ≡ thrown e
      → (command : RedeemCommand) → Asks command
      → ⊥
  not_asked_user e h command asks = absurd (cc (h, asks.1))

  not_asked_command :
      (u : ℤ) (e : Exception)
      → user_id_of rounded header ≡ ok u
      → redeem_command (some code) u ≡ thrown e
      → (command : RedeemCommand) → Asks command
      → ⊥
  not_asked_command u e h h' command asks =
      let same : u ≡ asks.0 = cc (h, asks.1) in absurd (cc (same, h', asks.2))

  module _ (em : Engine) (db : Db) where
    abbrev out : Reply RedeemCouponView × Db
    out = reply_of status_name (redeem text rounded em now code header db)

    Redeemed-Replies :
        (command : RedeemCommand)
        → Asks command
        → Redeemed command now db (Redeem.redeem em command now db)
        → Replies em db out
    unfolding redeem catch_exception C.map_domain map_common_error map_missing_header
    Redeemed-Replies command asks (missing none_there ran) =
        rw (asks.1, asks.2, ran) (hidden command asks (inl none_there) refl)
    Redeemed-Replies command asks (masked row found foreign ran) =
        rw (asks.1, asks.2, ran) (hidden command asks (inr (row, found, foreign)) refl)
    Redeemed-Replies command asks (replayed row used_at owned before ran) =
        rw (asks.1, asks.2, ran) (again command row used_at asks owned before refl)
    Redeemed-Replies command asks (refused row owned unused wrong ran) =
        rw (asks.1, asks.2, ran) (unusable command row asks owned unused wrong refl)
    Redeemed-Replies command asks (won row owned unused right ran) =
        rw (asks.1, asks.2, ran) (used command row asks owned unused right refl)
    Redeemed-Replies command asks (fault e f ran) =
        rw (asks.1, asks.2, ran, fault-reply e f) (failed command e asks f ran refl)

    -- What a user is answered who uses a coupon: 400 for a request that is not well formed, one and the
    -- same 404 for a code that no coupon has and for a coupon of another user, 409 for a coupon that
    -- cannot be used, 200 with the time of the first use if it was used before, and 200 with the time
    -- of the call otherwise, or 500 exactly for what a failed statement of the call threw. Nothing
    -- changes but a coupon that is used. (What is answered to the loser of a race is race-reply.)
    pub redeem-Replies : Replies em db out
    unfolding redeem
    redeem-Replies = by_user (user_id_of rounded header) refl
      where
        by_command :
            (u : ℤ) (c : Result RedeemCommand)
            → user_id_of rounded header ≡ ok u
            → redeem_command (some code) u ≡ c
            → Replies em db out
        by_command u (ok command) h h' =
            Redeemed-Replies command (u, h, h') (redeem_lem command now em db)
        by_command u (thrown e) h h' =
            rw (h, h') (malformed (not_asked_command u e h h') (redeem_command-status u e h') refl)

        by_user : (r : Result ℤ) → user_id_of rounded header ≡ r → Replies em db out
        by_user (ok u) h = by_command u (redeem_command (some code) u) h refl
        by_user (thrown e) h =
            rw h (malformed (not_asked_user e h) (user_id_of-status header e h) refl)

module _ (status_name : ℕ → Option String) (text : ℕ → String) (command : RedeemCommand)
    (em : Engine) where
  -- The answer to a call that goes on with the row that it has read.
  abbrev pub late_reply : ℕ → UserCouponRow → Db → Reply RedeemCouponView × Db
  late_reply later row db = reply_of status_name (
      (Redeem.redeem_found em command later (some (coupon_of_row row)) >>= λ result.
      pure (to_redeem_view text result))
        db)

  -- A call has read the row of the code, of its requester, when another call of his comes in between and
  -- uses the coupon. The first call is then answered 409 RACE_RETRY, or 500 if its statement failed, and
  -- in either case it changes nothing.
  pub race-reply :
      (now later : ℕ) (db db' : Db) (row : UserCouponRow) (r : RedeemResult)
      → Owned command now db row
      → Redeem.redeem em command now db ≡ (ok r, db')
      → r.newly_redeemed ≡ true
      → (late_reply later row db' ≡ (failed_reply 409 ErrorCode.race_retry race_retry_message, db'))
        ⊎ ((e : Exception) × IsFault e
            × (Redeem.redeem_found em command later (some (coupon_of_row row)) db'
                ≡ (thrown e, db'))
            × (late_reply later row db'
                ≡ (failed_reply 500 ErrorCode.internal_error internal_error_message, db')))
  unfolding catch_exception C.map_domain map_common_error map_missing_header
  race-reply now later db db' row r owned ran newly =
      elim (redeem-Overtaken em command now later db db' row r owned ran newly) [
        | inl lost ↦ inl (rw lost refl)
        | inr (e, f, gone) ↦
            inr (e, f, gone, rw (gone, fault-reply status_name text (λ n. n) now "" none e f) refl)
      ]
