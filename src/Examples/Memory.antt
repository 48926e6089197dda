-- ===== src/Examples/Memory.antt =====
-- The interfaces to MySQL, Redis and Kafka, filled by functions on plain data that never fail but where
-- a fresh identifier is taken already.
use mathlib.Core.List.{Memᴰ, Perm}
use mathlib.Core.List.Perm
use coupon_nestjs.Prelude.{
  ℕ, ℤ, pos, zero, suc, ◌≡◌, ◌≤◌, refl, Bool, true, false, some, List, [], ◌∷◌, ◌++◌, map, any,
  find?, keep, leb, count_if, length, All, arith, Bool-cases, inl, inr, is_some, if◌then◌else◌,
}
use coupon_nestjs.Common.Errors.{Exception, driver}
use coupon_nestjs.Common.Statuses.{EventStatus, is_pending}
use coupon_nestjs.Common.Cache.{Redis, Sets, Answers, stored}
use coupon_nestjs.Common.Broker.{Broker, Sends}
use coupon_nestjs.Effect.{Result, ok, thrown, Async}
use coupon_nestjs.ServerC.Schema.{
  UserCouponValues, OutboxRow, OutboxValues, EventRow, UserCouponRow, Db,
}
use coupon_nestjs.ServerC.Engine.{
  Engine, Reads, Writes, Commits, Inserts, OutboxAppended, NewestFirst, has_user, has_id,
  has_user_type, has_code, has_version, has_outbox_id, has_event_id, is_stock_of, coupon_row,
  outbox_row, set_used, set_available, set_published, duplicate_entry,
}

abbrev pub transact : {A : Type 0} → Db → Result A × Db → Result A × Db
transact db (ok a, db') = (ok a, db')
transact db (thrown e, db') = (thrown e, db)

pub transact-Commits :
    {A : Type 0} (body : Async Db A) (db : Db) → Commits db body (transact db (body db))
transact-Commits {A} body db = go (body db) refl
  where
    go : (out : Result A × Db) → body db ≡ out → Commits db body (transact db (body db))
    go (ok a, db') e = rw e (Commits.committed a db' e refl)
    go (thrown x, db') e = rw e (Commits.rolled_back x db' e refl)

abbrev pub no_id : Exception
no_id = driver "no fresh identifier"

abbrev pub insert_new : UserCouponValues → ℤ → Db → Result (Unit {0}) × Db
insert_new v id db =
    if any (has_id id) db.user_coupon
    then (thrown no_id, db)
    else (ok tt, record db { user_coupon = db.user_coupon ++ coupon_row v id ∷ [] })

abbrev pub insert_coupon : UserCouponValues → Db → Result (Unit {0}) × Db
insert_coupon v db =
    if any (has_user_type v.user_id v.coupon_type_id) db.user_coupon
    then (thrown (duplicate_entry "uk_user_coupon_user_type"), db)
    else if any (has_code db v.code) db.user_coupon
    then (thrown (duplicate_entry "uk_user_coupon_code"), db)
    else insert_new v (pos (suc (length db.user_coupon))) db

pub insert_coupon-Inserts : (v : UserCouponValues) (db : Db) → Inserts v db (insert_coupon v db)
insert_coupon-Inserts v db =
    elim (Bool-cases (any (has_user_type v.user_id v.coupon_type_id) db.user_coupon)) [
      | inl held ↦ rw held (Inserts.same_user_type held refl)
      | inr free ↦ elim (Bool-cases (any (has_code db v.code) db.user_coupon)) [
        | inl taken ↦ rw (free, taken) (Inserts.same_code taken refl)
        | inr new ↦
            elim (Bool-cases (any (has_id (pos (suc (length db.user_coupon)))) db.user_coupon)) [
              | inl used ↦ rw (free, new, used) (Inserts.fault no_id tt refl)
              | inr fresh ↦
                  rw (free, new, fresh)
                    (Inserts.inserted (pos (suc (length db.user_coupon))) fresh free new refl)
            ]
      ]
    ]

abbrev pub insert_outbox : OutboxValues → Db → Result (Unit {0}) × Db
insert_outbox v db =
    let id = pos (suc (length db.outbox)) in
    if any (has_outbox_id id) db.outbox
    then (thrown no_id, db)
    else (ok tt, record db { outbox = db.outbox ++ outbox_row v id 0 ∷ [] })

pub insert_outbox-Writes :
    (v : OutboxValues) (db : Db) → Writes db (λ _ db'. OutboxAppended v db db') (insert_outbox v db)
insert_outbox-Writes v db =
    elim (Bool-cases (any (has_outbox_id (pos (suc (length db.outbox)))) db.outbox)) [
      | inl used ↦ rw used (Writes.fault no_id tt refl)
      | inr fresh ↦ rw fresh (
          Writes.wrote tt _
            (record {
              id = pos (suc (length db.outbox));
              created_at = 0;
              is_new = fresh;
              appended = refl;
            })
            refl)
    ]

abbrev pub pending_rows : ℕ → List OutboxRow → List OutboxRow
pending_rows n [] = []
pending_rows zero (x ∷ xs) = []
pending_rows (suc n) (x ∷ xs) =
    if is_pending x.status then x ∷ pending_rows n xs else pending_rows (suc n) xs

pub pending_rows-All :
    (n : ℕ) (all xs : List OutboxRow)
    → ((r : OutboxRow) → Memᴰ r xs → Memᴰ r all)
    → All (λ r. Memᴰ r all × (is_pending r.status ≡ true)) (pending_rows n xs)
pending_rows-All n all [] h = tt
pending_rows-All zero all (x ∷ xs) h = tt
pending_rows-All (suc n) all (x ∷ xs) h = elim (Bool-cases (is_pending x.status)) [
  | inl waits ↦
      rw waits ((h x (Memᴰ.head refl), waits), pending_rows-All n all xs λ r m. h r (Memᴰ.tail m))
  | inr done ↦ rw done (pending_rows-All (suc n) all xs λ r m. h r (Memᴰ.tail m))
]

pub length-pending_rows : (n : ℕ) (xs : List OutboxRow) → length (pending_rows n xs) ≤ n
length-pending_rows n [] = omega arith
length-pending_rows zero (x ∷ xs) = omega arith
length-pending_rows (suc n) (x ∷ xs) = elim (Bool-cases (is_pending x.status)) [
  | inl waits ↦ rw waits (omega (arith, length-pending_rows n xs))
  | inr done ↦ rw done (length-pending_rows (suc n) xs)
]

abbrev pub same_event_status : EventStatus → EventStatus → Bool
same_event_status EventStatus.created EventStatus.created = true
same_event_status EventStatus.in_progress EventStatus.in_progress = true
same_event_status EventStatus.ended EventStatus.ended = true
same_event_status EventStatus.cancelled EventStatus.cancelled = true
same_event_status _ _ = false

eq_of_same_status : (a b : EventStatus) → same_event_status a b ≡ true → a ≡ b
eq_of_same_status EventStatus.created EventStatus.created h = refl
eq_of_same_status EventStatus.created EventStatus.in_progress h = absurd (cc h)
eq_of_same_status EventStatus.created EventStatus.ended h = absurd (cc h)
eq_of_same_status EventStatus.created EventStatus.cancelled h = absurd (cc h)
eq_of_same_status EventStatus.in_progress EventStatus.created h = absurd (cc h)
eq_of_same_status EventStatus.in_progress EventStatus.in_progress h = refl
eq_of_same_status EventStatus.in_progress EventStatus.ended h = absurd (cc h)
eq_of_same_status EventStatus.in_progress EventStatus.cancelled h = absurd (cc h)
eq_of_same_status EventStatus.ended EventStatus.created h = absurd (cc h)
eq_of_same_status EventStatus.ended EventStatus.in_progress h = absurd (cc h)
eq_of_same_status EventStatus.ended EventStatus.ended h = refl
eq_of_same_status EventStatus.ended EventStatus.cancelled h = absurd (cc h)
eq_of_same_status EventStatus.cancelled EventStatus.created h = absurd (cc h)
eq_of_same_status EventStatus.cancelled EventStatus.in_progress h = absurd (cc h)
eq_of_same_status EventStatus.cancelled EventStatus.ended h = absurd (cc h)
eq_of_same_status EventStatus.cancelled EventStatus.cancelled h = refl

abbrev pub events_of : EventStatus → List EventRow → List EventRow
events_of status [] = []
events_of status (x ∷ xs) =
    let rest = events_of status xs in if same_event_status x.status status then x ∷ rest else rest

pub events_of-All :
    (status : EventStatus) (all xs : List EventRow)
    → ((r : EventRow) → Memᴰ r xs → Memᴰ r all)
    → All (λ r. Memᴰ r all × (r.status ≡ status)) (events_of status xs)
events_of-All status all [] h = tt
events_of-All status all (x ∷ xs) h = elim (Bool-cases (same_event_status x.status status)) [
  | inl same ↦ rw same (
    (h x (Memᴰ.head refl), eq_of_same_status _ _ same),
    events_of-All status all xs λ r m. h r (Memᴰ.tail m),
  )
  | inr other ↦ rw other (events_of-All status all xs λ r m. h r (Memᴰ.tail m))
]

-- A row in front of the first one that is not newer.
abbrev pub insert_newest : UserCouponRow → List UserCouponRow → List UserCouponRow
insert_newest x [] = x ∷ []
insert_newest x (y ∷ ys) =
    let rest = insert_newest x ys in if leb y.issued_at x.issued_at then x ∷ y ∷ ys else y ∷ rest

abbrev pub newest_first : List UserCouponRow → List UserCouponRow
newest_first [] = []
newest_first (x ∷ xs) = insert_newest x (newest_first xs)

insert_newest-perm :
    (x : UserCouponRow) (xs : List UserCouponRow) → Perm (insert_newest x xs) (x ∷ xs)
insert_newest-perm x [] = Perm.rfl
insert_newest-perm x (y ∷ ys) = elim (Bool-cases (leb y.issued_at x.issued_at)) [
  | inl older ↦ rw older Perm.rfl
  | inr newer ↦ rw newer (Perm.trans (Perm.cons y (insert_newest-perm x ys)) (Perm.swap x y ys))
]

pub newest_first-perm : (xs : List UserCouponRow) → Perm (newest_first xs) xs
newest_first-perm [] = Perm.rfl
newest_first-perm (x ∷ xs) =
    Perm.trans (insert_newest-perm x (newest_first xs)) (Perm.cons x (newest_first-perm xs))

NewestFirst-tail :
    (y : UserCouponRow) (ys : List UserCouponRow) → NewestFirst (y ∷ ys) → NewestFirst ys
NewestFirst-tail y [] s = tt
NewestFirst-tail y (z ∷ zs) s = s.1

NewestFirst-after :
    (x y : UserCouponRow) (ys : List UserCouponRow)
    → x.issued_at ≤ y.issued_at
    → NewestFirst (y ∷ ys)
    → NewestFirst (insert_newest x ys)
    → NewestFirst (y ∷ insert_newest x ys)
NewestFirst-after x y [] h s t = (h, tt)
NewestFirst-after x y (z ∷ zs) h s t = elim (Bool-cases (leb z.issued_at x.issued_at)) [
  | inl older ↦ rw older (h, rw older at t)
  | inr newer ↦ rw newer (s.0, rw newer at t)
]

insert_newest-NewestFirst :
    (x : UserCouponRow) (xs : List UserCouponRow)
    → NewestFirst xs
    → NewestFirst (insert_newest x xs)
insert_newest-NewestFirst x [] s = tt
insert_newest-NewestFirst x (y ∷ ys) s = elim (Bool-cases (leb y.issued_at x.issued_at)) [
  | inl older ↦ rw older (ground (arith, older), s)
  | inr newer ↦ rw newer (
      NewestFirst-after x y ys (ground (arith, newer)) s
        (insert_newest-NewestFirst x ys (NewestFirst-tail y ys s)))
]

pub newest_first-NewestFirst : (xs : List UserCouponRow) → NewestFirst (newest_first xs)
newest_first-NewestFirst [] = tt
newest_first-NewestFirst (x ∷ xs) =
    insert_newest-NewestFirst x (newest_first xs) (newest_first-NewestFirst xs)

abbrev pub memory_engine : Engine
memory_engine = record {
  transaction = λ A body db. transact db (body db);
  transaction_lem = λ A body db. transact-Commits body db;
  count_coupons = λ u t db. (ok (count_if (has_user_type u t) db.user_coupon), db);
  count_coupons_lem = λ u t db. Reads.read _ (omega arith) refl;
  find_coupon_by_code = λ code db. (ok (find? (has_code db code) db.user_coupon), db);
  find_coupon_by_code_lem = λ code db. Reads.read _ refl refl;
  find_coupon = λ u t db. (ok (find? (has_user_type u t) db.user_coupon), db);
  find_coupon_lem = λ u t db. Reads.read _ refl refl;
  find_coupons_of = λ u db. (ok (newest_first (keep (has_user u) db.user_coupon)), db);
  find_coupons_of_lem = λ u db.
      Reads.read _
        (newest_first-perm _, newest_first-NewestFirst (keep (has_user u) db.user_coupon)) refl;
  insert_coupon = insert_coupon;
  insert_coupon_lem = insert_coupon-Inserts;
  update_used = λ id version now db. (
    ok (some (count_if (has_version id version) db.user_coupon)),
    record db { user_coupon = map (set_used id version now) db.user_coupon },
  );
  update_used_lem = λ id version now db. Writes.wrote _ _ (refl, refl) refl;
  lock_inventory = λ e t db. (ok (find? (is_stock_of e t) db.inventory), db);
  lock_inventory_lem = λ e t db. Reads.read _ refl refl;
  find_inventory = λ e t db. (ok (find? (is_stock_of e t) db.inventory), db);
  find_inventory_lem = λ e t db. Reads.read _ refl refl;
  update_available =
      λ id count db. (ok tt, record db { inventory = map (set_available id count) db.inventory });
  update_available_lem = λ id count db. Writes.wrote _ _ refl refl;
  find_event = λ id db. (ok (find? (has_event_id id) db.event), db);
  find_event_lem = λ id db. Reads.read _ refl refl;
  find_events = λ status db. (ok (events_of status db.event), db);
  find_events_lem =
      λ status db. Reads.read _ (events_of-All status db.event db.event λ r m. m) refl;
  insert_outbox = insert_outbox;
  insert_outbox_lem = insert_outbox-Writes;
  find_pending = λ limit db. (ok (pending_rows limit db.outbox), db);
  find_pending_lem = λ limit db.
      Reads.read _
        (pending_rows-All limit db.outbox db.outbox (λ r m. m), length-pending_rows limit db.outbox)
        refl;
  update_published =
      λ ids now db. (ok tt, record db { outbox = map (set_published ids now) db.outbox });
  update_published_lem = λ ids now db. Writes.wrote _ _ refl refl;
}

abbrev pub memory_redis : Redis
memory_redis = record {
  set = λ key value ttl cache. (ok tt, stored key value cache);
  set_lem = λ key value ttl cache. Sets.set_ok refl;
  get = λ key cache. (ok (cache key), cache);
  get_lem = λ key cache. Answers.answered refl;
  exists = λ key cache. (ok (if is_some (cache key) then 1 else 0), cache);
  exists_lem = λ key cache. Answers.answered refl;
}

abbrev pub memory_broker : (V : Type 0) → Broker V
memory_broker V = record {
  send = λ m log. (ok tt, log ++ m ∷ []);
  send_lem = λ m log. Sends.acknowledged refl;
}
