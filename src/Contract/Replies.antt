-- ===== src/Contract/Replies.antt =====
-- The replies of the three exception filters (global-exception.filter.ts of each server over
-- base-exception.filter.ts), and what a redeem call tells of other users' coupons.
use coupon_nestjs.Prelude.{
  ℕ, ◌≡◌, refl, ◌⊎◌, inl, inr, String, Bool, true, false, Option, none, some, find?, ◌==◌, int_eq,
}
use coupon_nestjs.Common.Errors.{
  Exception, common, domain, http, query_failed, plain, driver, missing_header, invalid_state,
  invalid_argument, type_mismatch, validation_failed, malformed_body, coupon_not_found,
  event_not_found, optimistic_lock_failure, duplicate_user_coupon,
}
use coupon_nestjs.Common.Http.{
  Reply, failure, error_of, ErrorCode, code_text, internal_error_message, not_found_message,
}
use coupon_nestjs.Common.Filter.{
  catch_exception, internal_error, map_common_error, map_missing_header,
}
use coupon_nestjs.Common.BodyParser.{on_parse_error}
use coupon_nestjs.ServerA.Filter as A
use coupon_nestjs.ServerB.Filter as B
use coupon_nestjs.ServerC.Filter as C
use coupon_nestjs.Effect.{Result, thrown}
use coupon_nestjs.ServerC.Schema.{UserCouponRow, Db}
use coupon_nestjs.ServerC.Engine.{Engine, IsFault, has_code}
use coupon_nestjs.ServerC.Redeem.{RedeemCommand, RedeemResult, not_found, redeem}
use coupon_nestjs.ServerC.Redeem.Refinement.{
  Owned, Redeemed, missing, masked, replayed, refused, won, fault, redeem_lem,
}

abbrev pub failed_reply : {T : Type 0} → ℕ → ErrorCode → String → Reply T
failed_reply status code message = record {
  status = status;
  retry_after = none;
  body = failure (error_of (code_text code) message);
}

-- The exceptions that no server has an answer for: the database's, unexpected ones, and the duplicate
-- that `process` catches itself.
abbrev pub is_unexpected : Exception → Bool
is_unexpected (query_failed _) = true
is_unexpected (plain _) = true
is_unexpected (driver _) = true
is_unexpected (domain (duplicate_user_coupon _)) = true
is_unexpected (domain (coupon_not_found _)) = false
is_unexpected (domain (event_not_found _)) = false
is_unexpected (domain (optimistic_lock_failure _)) = false
is_unexpected (common _) = false
is_unexpected (http _) = false

-- The errors that server-a and server-b answer differently.
abbrev is_disputed : Exception → Bool
is_disputed (common (missing_header _)) = true
is_disputed (common (invalid_state _)) = true
is_disputed (common (invalid_argument _)) = false
is_disputed (common (type_mismatch _)) = false
is_disputed (common (validation_failed _)) = false
is_disputed (common malformed_body) = false
is_disputed (domain _) = false
is_disputed (query_failed _) = false
is_disputed (plain _) = false
is_disputed (driver _) = false
is_disputed (http _) = false

module _ (status_name : ℕ → Option String) {T : Type 0} where
  -- An unexpected exception gets one and the same reply from every server: 500 INTERNAL_ERROR with a
  -- fixed message, which tells nothing of the exception.
  pub unexpected_reply :
      (e : Exception)
      → is_unexpected e ≡ true
      → let reply : Reply T = failed_reply 500 ErrorCode.internal_error internal_error_message in
        (catch_exception status_name A.map_domain e ≡ reply)
        × (catch_exception status_name B.map_domain e ≡ reply)
        × (catch_exception status_name C.map_domain e ≡ reply)
  unfolding catch_exception internal_error A.map_domain B.map_domain C.map_domain map_common_error
      map_missing_header
  unexpected_reply (query_failed q) h = (refl, refl, refl)
  unexpected_reply (plain m) h = (refl, refl, refl)
  unexpected_reply (driver m) h = (refl, refl, refl)
  unexpected_reply (domain (duplicate_user_coupon m)) h = (refl, refl, refl)
  unexpected_reply (domain (coupon_not_found m)) h = absurd (cc h)
  unexpected_reply (domain (event_not_found m)) h = absurd (cc h)
  unexpected_reply (domain (optimistic_lock_failure m)) h = absurd (cc h)
  unexpected_reply (common c) h = absurd (cc h)
  unexpected_reply (http x) h = absurd (cc h)

  -- server-a and server-b give the same reply to every exception but a missing header and an invalid
  -- state, which are the client's error (400, 409) for server-a and the server's own (500) for server-b.
  servers_agree :
      (e : Exception)
      → let a : Reply T = catch_exception status_name A.map_domain e in
        let b : Reply T = catch_exception status_name B.map_domain e in
        ((is_disputed e ≡ false) × (a ≡ b))
        ⊎ ((is_disputed e ≡ true) × ((a.status ≡ 400) ⊎ (a.status ≡ 409)) × (b.status ≡ 500))
  unfolding catch_exception internal_error A.map_domain B.map_domain map_common_error
      map_missing_header
  servers_agree (query_failed q) = inl (refl, refl)
  servers_agree (plain m) = inl (refl, refl)
  servers_agree (driver m) = inl (refl, refl)
  servers_agree (domain (duplicate_user_coupon m)) = inl (refl, refl)
  servers_agree (domain (coupon_not_found m)) = inl (refl, refl)
  servers_agree (domain (event_not_found m)) = inl (refl, refl)
  servers_agree (domain (optimistic_lock_failure m)) = inl (refl, refl)
  servers_agree (http x) = inl (refl, refl)
  servers_agree (common (invalid_argument m)) = inl (refl, refl)
  servers_agree (common (type_mismatch m)) = inl (refl, refl)
  servers_agree (common (validation_failed m)) = inl (refl, refl)
  servers_agree (common malformed_body) = inl (refl, refl)
  servers_agree (common (missing_header m)) = inr (refl, inl refl, refl)
  servers_agree (common (invalid_state m)) = inr (refl, inr refl, refl)

  -- A body that is no JSON gets the reply that every filter gives to a malformed body.
  malformed_reply :
      (on_parse_error {T = T} true
        ≡ some (catch_exception status_name A.map_domain (common malformed_body)))
      × (on_parse_error {T = T} true
          ≡ some (catch_exception status_name B.map_domain (common malformed_body)))
      × (on_parse_error {T = T} true
          ≡ some (catch_exception status_name C.map_domain (common malformed_body)))
  unfolding on_parse_error catch_exception A.map_domain B.map_domain C.map_domain map_common_error
  malformed_reply = (refl, refl, refl)

  -- The reply does not even depend on the code.
  not_found-reply :
      (code : String)
      → catch_exception status_name C.map_domain {T = T} (not_found code)
        ≡ failed_reply 404 ErrorCode.not_found not_found_message
  unfolding catch_exception C.map_domain
  not_found-reply code = refl

-- To the requester there is no coupon of the code: none at all, or one of another user.
abbrev pub IsHidden : RedeemCommand → Db → Type 0
IsHidden command db =
    (find? (has_code db command.code) db.user_coupon ≡ none)
    ⊎ ((row : UserCouponRow) × (find? (has_code db command.code) db.user_coupon ≡ some row)
        × ((row.user_id == command.user_id) ≡ false))

not-hidden :
    (command : RedeemCommand) (now : ℕ) (db : Db) (row : UserCouponRow)
    → Owned command now db row
    → IsHidden command db
    → ⊥
not-hidden command now db row o (inl n) = absurd (cc (n, o.found))
not-hidden command now db row o (inr (x, found, foreign)) =
    let one : row ≡ x = cc (found, o.found) in absurd (cc (one, foreign, o.owned))

masked_of_Redeemed :
    (command : RedeemCommand) (now : ℕ) (db : Db) (out : Result RedeemResult × Db)
    → IsHidden command db
    → Redeemed command now db out
    → (e : Exception) × (out ≡ (thrown e, db)) × ((e ≡ not_found command.code) ⊎ IsFault e)
masked_of_Redeemed command now db out hidden (missing n ran) =
    (not_found command.code, ran, inl refl)
masked_of_Redeemed command now db out hidden (masked x f n ran) =
    (not_found command.code, ran, inl refl)
masked_of_Redeemed command now db out hidden (replayed x t o used ran) =
    absurd (not-hidden command now db x o hidden)
masked_of_Redeemed command now db out hidden (refused x o n y ran) =
    absurd (not-hidden command now db x o hidden)
masked_of_Redeemed command now db out hidden (won x o n y ran) =
    absurd (not-hidden command now db x o hidden)
masked_of_Redeemed command now db out hidden (fault e f ran) = (e, ran, inr f)

-- A redeem call for a code that no coupon has, and one for a coupon of another user, change nothing and
-- throw what server-c answers by one and the same reply, 404 NOT_FOUND with a fixed message, unless a
-- statement failed.
redeem_hidden :
    (status_name : ℕ → Option String) (T : Type 0) (em : Engine) (command : RedeemCommand) (now : ℕ)
    (db : Db)
    → IsHidden command db
    → (e : Exception) × (redeem em command now db ≡ (thrown e, db))
      × ((catch_exception status_name C.map_domain {T = T} e
            ≡ failed_reply 404 ErrorCode.not_found not_found_message)
          ⊎ IsFault e)
redeem_hidden status_name T em command now db hidden =
    let (e, ran, why) = masked_of_Redeemed command now db _ hidden (redeem_lem command now em db) in
    (
      e,
      ran,
      elim why [
        | inl same ↦ inl (rw same (not_found-reply status_name command.code))
        | inr f ↦ inr f
      ],
    )
