-- ===== src/ServerC/Events/Answers.antt =====
-- Whatever Redis does, the answer is the stored event.
use mathlib.Core.Option
use coupon_nestjs.Prelude.{
  ℕ, ℤ, ◌≡◌, refl, sym, ap, ◌∙◌, String, Option, none, some, find?, find?_sound, int_beq_iff,
  string_eq, ==_refl,
}
use coupon_nestjs.Common.Errors.{Exception, domain, event_not_found}
use coupon_nestjs.Common.Text.{◌<+>◌, show_int}
use coupon_nestjs.Common.Cache.{Cache, Redis, Sets, Answers, stored}
use coupon_nestjs.Effect.{Result, ok, thrown, pure, ◌>>◌}
use coupon_nestjs.ServerC.Schema.{Db}
use coupon_nestjs.ServerC.Domain.{event_of_row}
use coupon_nestjs.ServerC.Engine.{Engine, Reads, IsFault, has_event_id}
use coupon_nestjs.ServerC.Repositories.{find_event_by_id}
use coupon_nestjs.ServerC.World.{World, on_cache}
use coupon_nestjs.ServerC.Events.{
  EventView, Formats, event_key, to_event_view, put, get, unless_cached, find_by_id,
}

module _ (formats : Formats) (id : ℤ) where
  -- The view of the stored event.
  abbrev pub stored_view : Db → Option EventView
  stored_view db =
      Option.map (λ row. to_event_view formats (event_of_row row))
        (find? (has_event_id id) db.event)

  -- The cache has no entry for the event, or that of the stored event.
  pub data IsFresh (db : Db) (cache : Cache) : Type 0 where
    absent : cache (event_key id) ≡ none → IsFresh db cache
    present :
        (v : EventView)
        → stored_view db ≡ some v
        → cache (event_key id) ≡ some (formats.stringify v)
        → IsFresh db cache

  pub data Finds (w : World) (out : Result EventView × World) : Type 0 where
    found :
        (v : EventView)
        → stored_view w.db ≡ some v
        → out.0 ≡ ok v
        → out.1.db ≡ w.db
        → IsFresh w.db out.1.cache
        → Finds w out
    not_found :
        stored_view w.db ≡ none
        → out ≡ (thrown (domain (event_not_found ("event not found: " <+> show_int id))), w)
        → Finds w out
    fault : (e : Exception) → IsFault e → out ≡ (thrown e, w) → Finds w out

  -- `JSON.parse` undoes `JSON.stringify` on the view of the stored event.
  abbrev pub ReadsBack : Db → Type 0
  ReadsBack db =
      (v : EventView) → stored_view db ≡ some v → formats.json_parse (formats.stringify v) ≡ ok v

  -- What a read of the cache may give.
  data Gets (db : Db) (cache : Cache) (out : Result (Option EventView) × Cache) : Type 0 where
    hit : (v : EventView) → stored_view db ≡ some v → out ≡ (ok (some v), cache) → Gets db cache out
    miss : out ≡ (ok none, cache) → Gets db cache out

  module _ (redis : Redis) (ttl : ℕ) where
    get-Gets :
        (db : Db) (cache : Cache)
        → ReadsBack db
        → IsFresh db cache
        → Gets db cache (get formats redis ttl id cache)
    unfolding get
    get-Gets db cache back fresh = elim (redis.get_lem (event_key id) cache) [
      | Answers.failed x e ↦ rw e (miss refl)
      | Answers.answered e ↦ elim fresh [
        | absent none_there ↦ rw (e, none_there) (miss refl)
        | present v is_stored there ↦ rw (e, there, back v is_stored) (hit v is_stored refl)
      ]
    ]

    stored_itself : (key value : String) (cache : Cache) → stored key value cache key ≡ some value
    stored_itself key value cache = rw (==_refl key)

    -- A write returns, and what it leaves is fresh.
    put-IsFresh :
        (db : Db) (cache : Cache) (v : EventView)
        → v.event_id ≡ id
        → stored_view db ≡ some v
        → IsFresh db cache
        → let out : Result (Unit {0}) × Cache = put formats redis ttl v cache in
          (out.0 ≡ ok tt) × IsFresh db out.1
    unfolding put
    put-IsFresh db cache v same is_stored fresh =
        let cache' = stored (event_key v.event_id) (formats.stringify v) cache in
        let now : IsFresh db cache' = present v is_stored (
          ap (λ i. cache' (event_key i)) (sym same)
          ∙ stored_itself (event_key v.event_id) (formats.stringify v) cache) in
        elim (redis.set_lem (event_key v.event_id) (formats.stringify v) ttl cache) [
          | Sets.set_ok e ↦ rw e (refl, now)
          | Sets.lost x e ↦ rw e (refl, now)
          | Sets.failed x e ↦ rw e (refl, fresh)
        ]

    -- What comes after the event was read.
    put_found-Finds :
        (w : World) (v : EventView)
        → stored_view w.db ≡ some v
        → (put formats redis ttl v w.cache).0 ≡ ok tt
        → IsFresh w.db (put formats redis ttl v w.cache).1
        → Finds w ((on_cache (put formats redis ttl v) >> pure v) w)
    put_found-Finds w v is_stored returns kept = go (put formats redis ttl v w.cache) refl
      where
        go :
            (out : Result (Unit {0}) × Cache)
            → put formats redis ttl v w.cache ≡ out
            → Finds w ((on_cache (put formats redis ttl v) >> pure v) w)
        go (ok a, cache) e = rw e (found v is_stored refl refl (rw e at kept))
        go (thrown x, cache) e = absurd (cc (e, returns))

    module _ (em : Engine) where
      unless_cached-Finds :
          (w : World)
          → IsFresh w.db w.cache
          → Finds w (unless_cached formats redis ttl em id none w)
      unfolding find_event_by_id
      unless_cached-Finds w fresh = elim (em.find_event_lem id w.db) [
        | Reads.fault x f e ↦ rw e (fault x f refl)
        | Reads.read none fits e ↦ rw e (not_found (ap (Option.map _) (sym fits)) refl)
        | Reads.read (some row) fits e ↦
            let view = to_event_view formats (event_of_row row) in
            let is_stored : stored_view w.db ≡ some view = ap (Option.map _) (sym fits) in
            let same : view.event_id ≡ id =
              (int_beq_iff _ _).0 (find?_sound (has_event_id id) w.db.event (sym fits)) in
            let (returns, kept) = put-IsFresh w.db w.cache view same is_stored fresh in
            rw e (put_found-Finds w view is_stored returns kept)
      ]

      -- Every query of an event that the cache has no entry for, or the entry of the stored event:
      -- the answer is the view of the stored event, which `JSON` reads back as it was written, from
      -- the cache or the database, and the cache is fresh again, whatever Redis does; or there is no
      -- such event; or the statement failed.
      pub find_by_id_lem :
          (w : World)
          → ReadsBack w.db
          → IsFresh w.db w.cache
          → Finds w (find_by_id formats redis ttl em id w)
      unfolding find_by_id
      find_by_id_lem w back fresh = elim (get-Gets w.db w.cache back fresh) [
        | hit v is_stored e ↦ rw e (found v is_stored refl refl fresh)
        | miss e ↦ rw e (unless_cached-Finds w fresh)
      ]
