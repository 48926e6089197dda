-- ===== src/ServerC/Poller.antt =====
-- apps/server-c/src/application/outbox.poller.ts: one cycle of the poller.
pub mod Logged
pub mod Cycle
use coupon_nestjs.Prelude.{ℕ, ℤ, List, [], ◌∷◌, ◌++◌, Bool, true, false}
use coupon_nestjs.Common.Payloads.{CouponIssueResultPayload}
use coupon_nestjs.Common.Broker.{Broker, Message}
use coupon_nestjs.Effect.{Result, ok, thrown, Async, pure, ◌>>=◌, ◌>>◌, try_catch}
use coupon_nestjs.ServerC.Schema.{OutboxRow}
use coupon_nestjs.ServerC.Engine.{Engine}
use coupon_nestjs.ServerC.Repositories.{find_pending, mark_published}
use coupon_nestjs.ServerC.World.{World, on_db, on_log}

abbrev pub message_of : OutboxRow → Message CouponIssueResultPayload
message_of r = record { key = r.aggregate_id; value = r.payload }

module _ (em : Engine) (broker : Broker CouponIssueResultPayload) (batch_size now : ℕ) where
  -- The identifier, if the message was acknowledged; a failure is logged and forgotten.
  abbrev pub published_id : OutboxRow → Async World (List ℤ)
  published_id event =
      try_catch (on_log (broker.send (message_of event)) >> pure (event.outbox_event_id ∷ []))
        (λ _. pure [])

  -- The loop over the events gives the identifiers to mark.
  unfoldable pub publish_all : List OutboxRow → Async World (List ℤ)
  publish_all [] = pure []
  publish_all (event ∷ events) = do
    here ← published_id event
    rest ← publish_all events
    pure (here ++ rest)

  unfoldable pub publish_pending : Async World (Unit {0})
  publish_pending = do
    events ← on_db (find_pending em batch_size)
    published ← publish_all events
    on_db (mark_published em published now)

  abbrev finished : Result (Unit {0}) × World → Result (Unit {0}) × World
  finished (r, w) = (ok tt, record w { running = false })

  abbrev poll_unless : Bool → Async World (Unit {0})
  poll_unless true w = (ok tt, w)
  poll_unless false w = finished (publish_pending (record w { running = true }))

  -- Nothing runs while another cycle does; no exception leaves the cycle.
  unfoldable pub poll : Async World (Unit {0})
  poll w = poll_unless w.running w
