-- ===== src/ServerC/Refresher.antt =====
-- apps/server-c/src/application/event-cache.refresher.ts: one cycle of the refresher.
pub mod Fresh
use coupon_nestjs.Prelude.{ℕ, Bool, true, false, List, [], ◌∷◌}
use coupon_nestjs.Common.Cache.{Cache, Redis}
use coupon_nestjs.Common.Statuses.{EventStatus}
use coupon_nestjs.Effect.{Result, ok, Async, pure, ◌>>=◌, ◌>>◌}
use coupon_nestjs.ServerC.Domain.{Event}
use coupon_nestjs.ServerC.Engine.{Engine}
use coupon_nestjs.ServerC.Repositories.{find_events_by_status}
use coupon_nestjs.ServerC.World.{World, on_db, on_cache}
use coupon_nestjs.ServerC.Events.{Formats, to_event_view, put}

-- The refresher's flag, beside what it changes.
pub record Refresher : Type 0 where
  pub world : World
  pub running : Bool

module _ (formats : Formats) (redis : Redis) (ttl_seconds : ℕ) where
  -- The loop over the events.
  unfoldable pub put_all : List Event → Async Cache (Unit {0})
  put_all [] = pure tt
  put_all (event ∷ events) =
      put formats redis ttl_seconds (to_event_view formats event) >> put_all events

  module _ (em : Engine) where
    unfoldable pub refresh_running : Async World (Unit {0})
    refresh_running = do
      events ← on_db (find_events_by_status em EventStatus.in_progress)
      on_cache (put_all events)

    -- Whatever was thrown is logged.
    abbrev finished : Result (Unit {0}) × World → Result (Unit {0}) × Refresher
    finished (r, w) = (ok tt, record { world = w; running = false })

    abbrev refresh_unless : Bool → Async Refresher (Unit {0})
    refresh_unless true s = (ok tt, s)
    refresh_unless false s = finished (refresh_running s.world)

    unfoldable pub refresh_active_events : Async Refresher (Unit {0})
    refresh_active_events s = refresh_unless s.running s
