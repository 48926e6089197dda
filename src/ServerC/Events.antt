-- ===== src/ServerC/Events.antt =====
-- apps/server-c/src/application/event-query.service.ts and infrastructure/redis/event-cache.store.ts:
-- the cache-aside reading of an event. `JSON` and the text of an instant are parameters.
pub mod Answers
use coupon_nestjs.Prelude.{ℕ, ℤ, String, Option, none, some}
use coupon_nestjs.Common.Errors.{Exception, domain, event_not_found}
use coupon_nestjs.Common.Text.{◌<+>◌, show_int}
use coupon_nestjs.Common.Cache.{Cache, Redis}
use coupon_nestjs.Common.Statuses.{EventStatus}
use coupon_nestjs.Effect.{Result, ok, thrown, Async, pure, throw, ◌>>=◌, ◌>>◌, try_catch}
use coupon_nestjs.ServerC.Domain.{Event}
use coupon_nestjs.ServerC.Engine.{Engine}
use coupon_nestjs.ServerC.Repositories.{find_event_by_id}
use coupon_nestjs.ServerC.World.{World, on_db, on_cache}

pub record EventView : Type 0 where
  pub event_id : ℤ
  pub name : String
  pub content : Option String
  pub started_at : String
  pub ended_at : String
  pub status : EventStatus

abbrev pub event_key : ℤ → String
event_key event_id = "event:" <+> show_int event_id

-- `JSON.stringify` and `JSON.parse` on views, and `toLocalDateTimeString`.
pub record Formats : Type 0 where
  pub stringify : EventView → String
  pub json_parse : String → Result EventView
  pub to_local_date_time_string : ℕ → String

module _ (formats : Formats) where
  abbrev pub to_event_view : Event → EventView
  to_event_view event = record {
    event_id = event.id;
    name = event.name;
    content = event.content;
    started_at = formats.to_local_date_time_string event.started_at;
    ended_at = formats.to_local_date_time_string event.ended_at;
    status = event.status;
  }

  -- A malformed entry is no entry.
  abbrev pub parsed : Result EventView → Option EventView
  parsed (ok view) = some view
  parsed (thrown e) = none

  abbrev pub read_entry : Option String → Option EventView
  read_entry none = none
  read_entry (some json) = parsed (formats.json_parse json)

  module _ (redis : Redis) (ttl_seconds : ℕ) where
    -- A failed write is logged and forgotten.
    unfoldable pub put : EventView → Async Cache (Unit {0})
    put event =
        try_catch (redis.set (event_key event.event_id) (formats.stringify event) ttl_seconds)
          (λ _. pure tt)

    -- A failed read finds nothing.
    unfoldable pub get : ℤ → Async Cache (Option EventView)
    get event_id =
        try_catch (redis.get (event_key event_id) >>= λ json. pure (read_entry json))
          (λ _. pure none)

    module _ (em : Engine) where
      abbrev pub put_found : ℤ → Option Event → Async World EventView
      put_found event_id none =
          throw (domain (event_not_found ("event not found: " <+> show_int event_id)))
      put_found event_id (some event) =
          on_cache (put (to_event_view event)) >> pure (to_event_view event)

      abbrev pub unless_cached : ℤ → Option EventView → Async World EventView
      unless_cached event_id (some view) = pure view
      unless_cached event_id none = do
        event ← on_db (find_event_by_id em event_id)
        put_found event_id event

      unfoldable pub find_by_id : ℤ → Async World EventView
      find_by_id event_id = on_cache (get event_id) >>= unless_cached event_id
