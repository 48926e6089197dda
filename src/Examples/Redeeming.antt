-- ===== src/Examples/Redeeming.antt =====
-- The use of a coupon: by its owner, again, by two at once, and by another user.
use coupon_nestjs.Prelude.{some, pos, ◌≡◌, refl, ◌⊎◌, none, [], ◌∷◌}
use coupon_nestjs.Common.Errors.{Exception}
use coupon_nestjs.Common.Statuses.{UserCouponStatus}
use coupon_nestjs.Effect.{ok, thrown}
use coupon_nestjs.ServerC.Schema.{UserCouponRow, Db}
use coupon_nestjs.ServerC.Domain.{coupon_of_row}
use coupon_nestjs.ServerC.Engine.{IsFault}
use coupon_nestjs.ServerC.Repositories.{find_by_code, mark_used}
use coupon_nestjs.Common.Text.{show_int, is_blank}
use coupon_nestjs.ServerC.Redeem.{
  redeem_command, RedeemCommand, succeeded, already_redeemed, lost_race, claim, redeem, redeem_body,
  redeem_found,
}
use coupon_nestjs.ServerC.Redeem.Refinement.{after_use, Redeemed}
use coupon_nestjs.ServerC.Redeem.Late.{Late, redeem-Late}
use coupon_nestjs.ServerC.Redeem.Twice.{redeem_twice, claim_lost}
use coupon_nestjs.Contract.Redeeming.{Replies, reply_of, redeem-Replies, late_reply, race-reply}
use coupon_nestjs.Contract.Replies.{failed_reply}
use coupon_nestjs.Common.Http.{ErrorCode, internal_error_message, race_retry_message}
use coupon_nestjs.ServerC.Controllers as Controllers
use coupon_nestjs.Common.Requests.{user_id_of}
use coupon_nestjs.Common.Requests.RoundTrip.{read_back}
use coupon_nestjs.Examples.Memory.{memory_engine}

abbrev pub coupon : UserCouponRow
coupon = record {
  user_coupon_id = pos 1;
  code = "ABCDEFGH0123";
  user_id = pos 7;
  event_id = pos 10;
  coupon_type_id = pos 20;
  status = UserCouponStatus.success;
  issued_at = 200;
  used_at = none;
  version = 0;
}

abbrev pub coupon_db : Db
coupon_db = record {
  collate = λ s. s;
  user_coupon = coupon ∷ [];
  inventory = [];
  event = [];
  outbox = [];
}

abbrev owner : RedeemCommand
owner = record { code = "ABCDEFGH0123"; user_id = pos 7 }

abbrev stranger : RedeemCommand
stranger = record { code = "ABCDEFGH0123"; user_id = pos 8 }

-- The row was read before the coupon was used by another call.
redeem-Late_example :
    let after = after_use coupon 300 coupon_db in
    Redeemed owner 301 after (redeem memory_engine owner 301 after)
    × Late owner 301
        (some coupon)
        after
        (redeem_found memory_engine owner 301 (some (coupon_of_row coupon)) after)
redeem-Late_example =
    redeem-Late owner 301 memory_engine (after_use coupon 300 coupon_db) (some coupon)

owner_redeems :
    redeem memory_engine owner 300 coupon_db
    ≡ (ok (succeeded "ABCDEFGH0123" (pos 7) 300), after_use coupon 300 coupon_db)
unfolding redeem redeem_body claim find_by_code mark_used
owner_redeems = refl

redeem_twice_example :
    (redeem memory_engine owner 400 (after_use coupon 300 coupon_db)
      ≡ (ok (already_redeemed "ABCDEFGH0123" (pos 7) 300), after_use coupon 300 coupon_db))
    ⊎ ((e : Exception) × IsFault e
        × (redeem memory_engine owner 400 (after_use coupon 300 coupon_db)
            ≡ (thrown e, after_use coupon 300 coupon_db)))
redeem_twice_example =
    redeem_twice memory_engine owner 300 400 coupon_db (succeeded "ABCDEFGH0123" (pos 7) 300)
      (after_use coupon 300 coupon_db) owner_redeems

claim_lost_example :
    (claim memory_engine owner 301 (coupon_of_row coupon) (after_use coupon 300 coupon_db)
      ≡ (thrown (lost_race "ABCDEFGH0123" 0), after_use coupon 300 coupon_db))
    ⊎ ((e : Exception) × IsFault e
        × (claim memory_engine owner 301 (coupon_of_row coupon) (after_use coupon 300 coupon_db)
            ≡ (thrown e, after_use coupon 300 coupon_db)))
claim_lost_example = claim_lost memory_engine owner 300 301 coupon coupon_db

-- The user uses the coupon over HTTP.
redeem-Replies_example :
    Replies
      (λ status. none)
      (λ n. "t")
      (λ n. n)
      300
      "ABCDEFGH0123"
      (some "7")
      memory_engine
      coupon_db
      (reply_of
        (λ status. none)
        (Controllers.redeem
          (λ n. "t")
          (λ n. n)
          memory_engine
          300
          "ABCDEFGH0123"
          (some "7")
          coupon_db))
redeem-Replies_example =
    redeem-Replies (λ status. none) (λ n. "t") (λ n. n) 300 "ABCDEFGH0123" (some "7") memory_engine
      coupon_db

race-reply_example :
    let after = after_use coupon 300 coupon_db in
    (late_reply (λ status. none) (λ n. "t") owner memory_engine 301 coupon after
      ≡ (failed_reply 409 ErrorCode.race_retry race_retry_message, after))
    ⊎ ((e : Exception) × IsFault e
        × (redeem_found memory_engine owner 301 (some (coupon_of_row coupon)) after
            ≡ (thrown e, after))
        × (late_reply (λ status. none) (λ n. "t") owner memory_engine 301 coupon after
            ≡ (failed_reply 500 ErrorCode.internal_error internal_error_message, after)))
race-reply_example =
    race-reply (λ status. none) (λ n. "t") owner memory_engine 300 301 coupon_db
      (after_use coupon 300 coupon_db) coupon (succeeded "ABCDEFGH0123" (pos 7) 300)
      (record { found = refl; owned = refl }) owner_redeems refl

-- His request is well formed.
asked : user_id_of (λ n. n) (some "7") ≡ ok (pos 7)
unfolding show_int
asked = (read_back (λ n. n) (pos 7) "userId" refl).0

commanded : redeem_command (some "ABCDEFGH0123") (pos 7) ≡ ok owner
unfolding redeem_command is_blank
commanded = refl
