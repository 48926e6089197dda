-- ===== src/Examples/Querying.antt =====
-- A query of an event that the cache has, and a cycle of the refresher on an empty cache.
use coupon_nestjs.Prelude.{
  ◌≡◌, false, pos, refl, none, some, if◌then◌else◌, ◌==◌, string_eq, ==_refl,
}
use coupon_nestjs.Common.Statuses.{EventStatus}
use coupon_nestjs.Effect.{ok}
use coupon_nestjs.ServerC.World.{World}
use coupon_nestjs.ServerC.Events.{EventView, Formats, find_by_id, event_key}
use coupon_nestjs.ServerC.Events.Answers.{Finds, ReadsBack, absent, present, find_by_id_lem}
use coupon_nestjs.ServerC.Refresher.{Refresher, refresh_active_events}
use coupon_nestjs.ServerC.Refresher.Fresh.{AllFresh, refresh_lem}
use coupon_nestjs.Examples.Memory.{memory_engine, memory_redis}
use coupon_nestjs.Examples.Issuing.{first_db, first_world}

abbrev view : EventView
view = record {
  event_id = pos 10;
  name = "launch";
  content = none;
  started_at = "t";
  ended_at = "t";
  status = EventStatus.in_progress;
}

-- One text for the example's one view.
abbrev formats : Formats
formats = record {
  stringify = λ v. v.name;
  json_parse = λ text. ok view;
  to_local_date_time_string = λ n. "t";
}

first_db-ReadsBack : ReadsBack formats (pos 10) first_db
first_db-ReadsBack v h = cc h

abbrev cached_world : World
cached_world = record first_world {
  cache = λ key. if key == event_key (pos 10) then some "launch" else none;
}

find_by_id_lem_example :
    Finds formats
      (pos 10)
      cached_world
      (find_by_id formats memory_redis 300 memory_engine (pos 10) cached_world)
find_by_id_lem_example =
    find_by_id_lem formats (pos 10) memory_redis 300 memory_engine cached_world first_db-ReadsBack
      (present view refl (rw (==_refl (event_key (pos 10)))))

abbrev idle : Refresher
idle = record { world = first_world; running = false }

refresh_lem_example :
    let out = refresh_active_events formats memory_redis 300 memory_engine idle in
    (out.0 ≡ ok tt)
    × (out.1.world ≡ record first_world { cache = out.1.world.cache })
    × AllFresh formats first_db out.1.world.cache
    × (out.1.running ≡ false)
refresh_lem_example =
    refresh_lem formats memory_redis 300 memory_engine idle (refl, tt) (λ id. absent refl)
