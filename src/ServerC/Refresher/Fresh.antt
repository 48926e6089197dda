-- ===== src/ServerC/Refresher/Fresh.antt =====
-- A cycle of the refresher leaves the cache fresh for every event.
use mathlib.Core.Option
use mathlib.Core.List.{Memᴰ}
use coupon_nestjs.Prelude.{
  ℕ, ℤ, ◌≡◌, refl, sym, ap, ◌∙◌, inl, inr, Bool, false, none, some, find?, List, [], ◌∷◌, map, All,
  Distinct, eq_of_Distinct, Mem-find?, find?_sound, Bool-cases, Option-cases, int_beq_iff,
  int_beq_comm, ◌==◌, int_eq, string_eq, arith,
}
use text.Mathlib.TextLemmas.{append_cancel_left}
use coupon_nestjs.Common.Text.{show_int}
use coupon_nestjs.Common.Requests.RoundTrip.{read_long-show_int}
use coupon_nestjs.Common.Requests.{read_long}
use coupon_nestjs.Common.Cache.{Cache, Redis, Sets, stored}
use coupon_nestjs.Common.Statuses.{EventStatus}
use coupon_nestjs.Effect.{Result, ok, thrown}
use coupon_nestjs.ServerC.Schema.{EventRow, Db}
use coupon_nestjs.ServerC.Domain.{event_of_row}
use coupon_nestjs.ServerC.Engine.{Engine, Reads, has_event_id}
use coupon_nestjs.ServerC.Repositories.{find_events_by_status}
use coupon_nestjs.ServerC.World.{World}
use coupon_nestjs.ServerC.Events.{EventView, Formats, event_key, to_event_view, put}
use coupon_nestjs.ServerC.Events.Answers.{stored_view, IsFresh, absent, present}
use coupon_nestjs.ServerC.Refresher.{Refresher, put_all, refresh_running, refresh_active_events}

-- The primary key of the table `event`.
abbrev pub same_event : EventRow → EventRow → Bool
same_event a b = a.event_id == b.event_id

find?-none :
    (id : ℤ) (xs : List EventRow)
    → find? (has_event_id id) xs ≡ none
    → {r : EventRow} → Memᴰ r xs
    → has_event_id id r ≡ false
find?-none id [] h m = elim m [ ]
find?-none id (x ∷ xs) h (Memᴰ.head e) = rw e (ground arith)
find?-none id (x ∷ xs) h (Memᴰ.tail m) = find?-none id xs (ground arith) m

find?-Distinct :
    (xs : List EventRow) (r : EventRow)
    → Distinct same_event xs
    → Memᴰ r xs
    → find? (has_event_id r.event_id) xs ≡ some r
find?-Distinct xs r d m = elim (Option-cases (find? (has_event_id r.event_id) xs)) [
  | inl none_there ↦
      absurd
        (cc (find?-none r.event_id xs none_there m, (int_beq_iff r.event_id r.event_id).1 refl))
  | inr (a, there) ↦
      there
      ∙ ap some (
          eq_of_Distinct same_event xs (λ x y. int_beq_comm x.event_id y.event_id) d
            (Mem-find? _ xs there) m (find?_sound (has_event_id r.event_id) xs there))
]

-- Two events have two keys.
event_key_inj : (a b : ℤ) → event_key a ≡ event_key b → a ≡ b
event_key_inj a b h =
    let texts = append_cancel_left "event:" (show_int a) (show_int b) h in
    let numbers : some a ≡ some b =
      sym (read_long-show_int a) ∙ ap read_long texts ∙ read_long-show_int b in
    cc numbers

module _ (formats : Formats) (db : Db) where
  abbrev pub AllFresh : Cache → Type 0
  AllFresh cache = (id : ℤ) → IsFresh formats id db cache

  IsFresh-stored :
      (cache : Cache) (v : EventView) (id : ℤ)
      → stored_view formats v.event_id db ≡ some v
      → IsFresh formats id db cache
      → IsFresh formats id db (stored (event_key v.event_id) (formats.stringify v) cache)
  IsFresh-stored cache v id is_stored fresh =
      elim (Bool-cases (event_key v.event_id == event_key id)) [
        | inl e ↦
            let same = event_key_inj v.event_id id (string_eq.eq_of_same _ _ e) in
            present v (ap (λ i. stored_view formats i db) (sym same) ∙ is_stored) (rw e refl)
        | inr e ↦ elim fresh [ absent h ↦ absent (rw e h) | present x s h ↦ present x s (rw e h) ]
      ]

  module _ (redis : Redis) (ttl : ℕ) where
    -- What a write of a stored view leaves.
    Kept : Result (Unit {0}) × Cache → Type 0
    Kept out = (out.0 ≡ ok tt) × AllFresh out.1

    put-Kept :
        (cache : Cache) (v : EventView)
        → stored_view formats v.event_id db ≡ some v
        → AllFresh cache
        → Kept (put formats redis ttl v cache)
    unfolding put Kept
    put-Kept cache v is_stored fresh =
        let now : AllFresh (stored (event_key v.event_id) (formats.stringify v) cache) =
          λ id. IsFresh-stored cache v id is_stored (fresh id) in
        elim (redis.set_lem (event_key v.event_id) (formats.stringify v) ttl cache) [
          | Sets.set_ok e ↦ rw e (refl, now)
          | Sets.lost x e ↦ rw e (refl, now)
          | Sets.failed x e ↦ rw e (refl, fresh)
        ]

    put_all-Kept :
        (rows : List EventRow) (cache : Cache)
        → Distinct same_event db.event
        → All (λ r. Memᴰ r db.event × (r.status ≡ EventStatus.in_progress)) rows
        → AllFresh cache
        → Kept (put_all formats redis ttl (map event_of_row rows) cache)
    unfolding put_all Kept
    put_all-Kept [] cache d all fresh = (refl, fresh)
    put_all-Kept (row ∷ rows) cache d all fresh =
        let view = to_event_view formats (event_of_row row) in
        let is_stored : stored_view formats view.event_id db ≡ some view =
          ap (Option.map _) (find?-Distinct db.event row d all.0.0) in
        go (put formats redis ttl view cache) refl (put-Kept cache view is_stored fresh)
          λ cache'. put_all-Kept rows cache' d all.1
      where
        go :
            (out : Result (Unit {0}) × Cache)
            → put formats redis ttl (to_event_view formats (event_of_row row)) cache ≡ out
            → Kept out
            → ((cache' : Cache)
                → AllFresh cache'
                → Kept (put_all formats redis ttl (map event_of_row rows) cache'))
            → Kept (put_all formats redis ttl (map event_of_row (row ∷ rows)) cache)
        go (ok a, cache') e kept others = rw e (others cache' kept.1)
        go (thrown x, cache') e kept others = absurd (cc kept.0)

module _ (formats : Formats) (redis : Redis) (ttl : ℕ) (em : Engine) where
  -- What the cycle may change.
  Touched : World → Result (Unit {0}) × World → Type 0
  Touched w out = (out.1 ≡ record w { cache = out.1.cache }) × AllFresh formats w.db out.1.cache

  refresh_running-Touched :
      (w : World)
      → Distinct same_event w.db.event
      → AllFresh formats w.db w.cache
      → Touched w (refresh_running formats redis ttl em w)
  unfolding refresh_running find_events_by_status Touched Kept
  refresh_running-Touched w d fresh = elim (em.find_events_lem EventStatus.in_progress w.db) [
    | Reads.fault x f e ↦ rw e (refl, fresh)
    | Reads.read rows fits e ↦
        rw e (refl, (put_all-Kept formats w.db redis ttl rows w.cache d fits fresh).1)
  ]

  -- A cycle of the refresher returns and touches the cache only, and a cache that has for every event
  -- no entry or that of the stored event is such a cache afterwards, whatever Redis and the database
  -- do, when the identifiers of the stored events are distinct. The flag is as it was.
  pub refresh_lem :
      (s : Refresher)
      → Distinct same_event s.world.db.event
      → AllFresh formats s.world.db s.world.cache
      → let out = refresh_active_events formats redis ttl em s in
        (out.0 ≡ ok tt)
        × (out.1.world ≡ record s.world { cache = out.1.world.cache })
        × AllFresh formats s.world.db out.1.world.cache
        × (out.1.running ≡ s.running)
  unfolding refresh_active_events Touched
  refresh_lem s d fresh = elim (Bool-cases s.running) [
    | inl on ↦ rw on (refl, refl, fresh, refl)
    | inr off ↦
        let touched = refresh_running-Touched s.world d fresh in
        rw off (refl, touched.0, touched.1, refl)
  ]
