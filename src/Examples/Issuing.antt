-- ===== src/Examples/Issuing.antt =====
-- server-c on one event with a single coupon, two users, a redeem call and a poller cycle.
use mathlib.Core.Bool.{and-eq-true_iff}
use coupon_nestjs.Prelude.{
  ℕ, ℤ, pos, ◌≡◌, ◌≤◌, refl, sym, ◌∙◌, inl, inr, String, Bool, true, false, none, some, List, [],
  ◌∷◌, find?, any, Bool-cases, int_beq_iff, ◌⊎◌,
}
use coupon_nestjs.Common.Errors.{Exception}
use coupon_nestjs.Common.Statuses.{EventStatus, CouponIssueResultStatus}
use coupon_nestjs.Common.Payloads.{CouponIssueRequestPayload, CouponIssueResultPayload}
use coupon_nestjs.Effect.{ok, thrown}
use coupon_nestjs.ServerC.Schema.{InventoryRow, EventRow, Db}
use coupon_nestjs.ServerC.Engine.{IsFault, is_stock_of, has_code, duplicate_entry}
use coupon_nestjs.ServerC.World.{World}
use coupon_nestjs.ServerC.Issue.{
  Moment, process, run_issue_transaction, issue_body, issue_unless, issue_for_event,
  issue_from_stock, record_success, record_sold_out, record_failed, save_result, save_outbox,
  after_transaction, mark_sold_out_if_depleted,
}
use coupon_nestjs.ServerC.Repositories.{
  exists_by_user_id_and_coupon_type_id, find_event_by_id, find_for_update, update_available_count,
  insert, append, find_by_event_id_and_coupon_type_id, find_by_code, mark_used, find_pending,
  mark_published,
}
use coupon_nestjs.ServerC.Domain.{decrement, is_active, is_depleted}
use coupon_nestjs.ServerC.SoldOut.{mark_sold_out, coupon_available}
use coupon_nestjs.Common.Broker.{Broker}
use coupon_nestjs.Common.Text.{prefix, show_int}
use coupon_nestjs.ServerC.Issue.Spec.{Recorded, taken}
use coupon_nestjs.ServerC.Issue.Process.{Processed, process_lem}
use coupon_nestjs.ServerC.Issue.Stock.{issued_count, as_nat}
use coupon_nestjs.ServerC.Issue.Redelivery.{Untouched, process_twice, process_available}
use coupon_nestjs.ServerC.Redeem.{redeem, redeem_body, claim}
use coupon_nestjs.ServerC.Poller.{poll, publish_pending, publish_all}
use coupon_nestjs.ServerC.Poller.Cycle.{Polled, poll_lem}
use coupon_nestjs.ServerC.System.{Call, deliver, redeem_at, poll_at, step, run}
use coupon_nestjs.ServerC.System.Invariants.{IsSound, run-IsSound, run-no_oversell}
use coupon_nestjs.ServerC.System.Outbox.{IsReported, run-IsReported}
use coupon_nestjs.ServerC.System.Marks.{IsMarkedRight, Marks, run-IsMarkedRight}
use coupon_nestjs.ServerA.Issue.{is_sold_out}
use coupon_nestjs.ServerA.Issue as A
use coupon_nestjs.Contract.SoldOut.{is_sold_out-emptied}
use coupon_nestjs.Examples.Memory.{memory_engine, memory_redis, memory_broker}

abbrev stock_row : InventoryRow
stock_row = record {
  coupon_type_inventory_id = pos 1;
  event_id = pos 10;
  coupon_type_id = pos 20;
  total_inventory = pos 1;
  available_count = pos 1;
}

abbrev event_row : EventRow
event_row = record {
  event_id = pos 10;
  name = "launch";
  content = none;
  started_at = 100;
  ended_at = 900;
  status = EventStatus.in_progress;
}

abbrev pub first_db : Db
first_db = record {
  collate = λ s. s;
  user_coupon = [];
  inventory = stock_row ∷ [];
  event = event_row ∷ [];
  outbox = [];
}

abbrev pub first_world : World
first_world = record { db = first_db; cache = λ key. none; log = []; running = false }

abbrev request_of : String → ℤ → CouponIssueRequestPayload
request_of request_id user_id = record {
  request_id = request_id;
  user_id = user_id;
  event_id = pos 10;
  coupon_type_id = pos 20;
  requested_at = "2026-01-01T00:00:00Z";
}

abbrev pub moment : ℕ → String → Moment
moment now code = record { now = now; now_text = "2026-01-01T00:00:01Z"; code = code }

abbrev pub first_request : CouponIssueRequestPayload
first_request = request_of "aaaaaaaa-bbbb-cccc-dddd-eeeeeeeeeeee" (pos 7)

-- The first user gets the coupon, the second one comes too late; the coupon is used, and the results
-- are published.
abbrev pub calls : List Call
calls =
    deliver first_request (moment 200 "ABCDEFGH0123")
    ∷ deliver (request_of "ffffffff-bbbb-cccc-dddd-eeeeeeeeeeee" (pos 8))
        (moment 201 "HGFEDCBA3210")
    ∷ redeem_at (record { code = "ABCDEFGH0123"; user_id = pos 7 }) 300
    ∷ poll_at 301
    ∷ []

-- What a lookup in a list of one row finds.
one_found :
    {A : Type 0} (p : A → Bool) (row x : A)
    → find? p (row ∷ []) ≡ some x
    → (x ≡ row) × (p row ≡ true)
one_found p row x h = elim (Bool-cases (p row)) [
  | inl found ↦ (cc (rw found at h), found)
  | inr missed ↦ absurd (cc (rw missed at h))
]

pub first_db-IsSound : IsSound first_db
first_db-IsSound = record {
  stocked = record {
    keyed = λ e t e' t' x y found found' same.
        let (at_e, at_t) =
          (and-eq-true_iff _ _).0 (one_found (is_stock_of e t) stock_row x found).1 in
        let (at_e', at_t') =
          (and-eq-true_iff _ _).0 (one_found (is_stock_of e' t') stock_row y found').1 in
        (
          sym ((int_beq_iff (pos 10) e).0 at_e) ∙ (int_beq_iff (pos 10) e').0 at_e',
          sym ((int_beq_iff (pos 20) t).0 at_t) ∙ (int_beq_iff (pos 20) t').0 at_t',
        );
    balanced = λ e t x found.
        rw (one_found (is_stock_of e t) stock_row x found).0
          (record { not_negative = refl; adds_up = refl });
  };
  unique = record { ids = tt; user_types = tt; codes = tt };
}

pub first_db-IsReported : IsReported first_db []
first_db-IsReported = record {
  paired = tt;
  logged = record { ids = tt; logged = λ r m done. elim m [ ] };
}

pub first_world-IsMarkedRight : IsMarkedRight first_db.inventory first_world.cache
first_world-IsMarkedRight e t there = absurd (cc there)

abbrev broker : Broker CouponIssueResultPayload
broker = memory_broker CouponIssueResultPayload

abbrev last_world : World
last_world = run memory_engine memory_redis broker 3600 50 calls first_world

run-IsSound_example : IsSound last_world.db
run-IsSound_example =
    run-IsSound memory_engine memory_redis broker 3600 50 calls first_world first_db-IsSound

abbrev last_stock : InventoryRow
last_stock = record stock_row { available_count = pos 0 }

last_stock_found : find? (is_stock_of (pos 10) (pos 20)) last_world.db.inventory ≡ some last_stock
unfolding step process run_issue_transaction issue_body issue_unless issue_for_event
    issue_from_stock record_success record_sold_out record_failed save_result save_outbox
    after_transaction mark_sold_out_if_depleted exists_by_user_id_and_coupon_type_id
    find_event_by_id find_for_update update_available_count insert append decrement is_active
    is_depleted find_by_event_id_and_coupon_type_id mark_sold_out redeem redeem_body claim
    find_by_code mark_used poll publish_pending publish_all find_pending mark_published
    coupon_available prefix
last_stock_found = refl

run-no_oversell_example :
    issued_count (pos 10) (pos 20) last_world.db ≤ as_nat last_stock.total_inventory
run-no_oversell_example =
    run-no_oversell memory_engine memory_redis broker 3600 50 calls first_world (pos 10) (pos 20)
      last_stock first_db-IsSound last_stock_found

run-IsReported_example : IsReported last_world.db last_world.log
run-IsReported_example =
    run-IsReported memory_engine memory_redis broker 3600 50 calls first_world first_db-IsSound
      first_db-IsReported

run-IsMarkedRight_example : IsMarkedRight last_world.db.inventory last_world.cache
run-IsMarkedRight_example =
    run-IsMarkedRight memory_engine memory_redis broker 3600 50 calls first_world first_db-IsSound
      first_world-IsMarkedRight

process_lem_example :
    Processed first_request (moment 200 "ABCDEFGH0123") first_world (
      process first_request (moment 200 "ABCDEFGH0123") memory_engine memory_redis 3600 first_world)
process_lem_example =
    process_lem first_request (moment 200 "ABCDEFGH0123") memory_engine memory_redis 3600
      first_world

poll_lem_example : Polled 301 last_world (poll memory_engine broker 50 301 last_world)
poll_lem_example = poll_lem memory_engine broker 50 301 last_world

-- The first user's request is delivered again.
abbrev served_world : World
served_world =
    (process first_request (moment 200 "ABCDEFGH0123") memory_engine memory_redis 3600
      first_world).1

served_first :
    process first_request (moment 200 "ABCDEFGH0123") memory_engine memory_redis 3600 first_world
    ≡ (ok tt, served_world)
unfolding process run_issue_transaction issue_body issue_unless issue_for_event issue_from_stock
    record_success record_sold_out record_failed save_result save_outbox after_transaction
    mark_sold_out_if_depleted exists_by_user_id_and_coupon_type_id find_event_by_id find_for_update
    update_available_count insert append decrement is_active is_depleted
    find_by_event_id_and_coupon_type_id mark_sold_out coupon_available
served_first = refl

process_twice_example :
    Untouched first_request served_world
      (process first_request
        (moment 210 "ZZZZZZZZ0000")
        memory_engine
        memory_redis
        3600
        served_world).1
process_twice_example =
    process_twice memory_engine memory_redis 3600 first_request (moment 200 "ABCDEFGH0123")
      (moment 210 "ZZZZZZZZ0000") first_world served_world served_first

process_available_example :
    let out =
      process first_request
        (moment 200 "ABCDEFGH0123")
        memory_engine
        memory_redis
        3600
        first_world in
    ((out.0 ≡ ok tt)
      × Recorded first_request
          (moment 200 "ABCDEFGH0123")
          CouponIssueResultStatus.success
          (some "ABCDEFGH0123")
          (taken stock_row first_db)
          out.1.db)
    ⊎ ((e : Exception) × (out ≡ (thrown e, first_world))
        × (IsFault e
            ⊎ ((any (has_code first_db "ABCDEFGH0123") [] ≡ true)
                × (e ≡ duplicate_entry "uk_user_coupon_code"))))
unfolding is_active
process_available_example =
    process_available memory_engine memory_redis 3600 first_request (moment 200 "ABCDEFGH0123")
      first_world event_row stock_row refl refl refl refl refl

-- server-a finds the coupon type sold out in the end.
found_sold_out :
    is_sold_out memory_redis (pos 10) (pos 20) last_world.cache ≡ (ok true, last_world.cache)
unfolding step process run_issue_transaction issue_body issue_unless issue_for_event
    issue_from_stock record_success record_sold_out record_failed save_result save_outbox
    after_transaction mark_sold_out_if_depleted exists_by_user_id_and_coupon_type_id
    find_event_by_id find_for_update update_available_count insert append decrement is_active
    is_depleted find_by_event_id_and_coupon_type_id mark_sold_out redeem redeem_body claim
    find_by_code mark_used poll publish_pending publish_all find_pending mark_published
    coupon_available prefix is_sold_out A.coupon_available show_int
found_sold_out = refl

is_sold_out-emptied_example : Marks (coupon_available (pos 10) (pos 20)) last_world.db.inventory
is_sold_out-emptied_example =
    is_sold_out-emptied memory_engine memory_redis broker 3600 50 calls first_world (pos 10)
      (pos 20) last_world.cache first_db-IsSound first_world-IsMarkedRight found_sold_out
