-- ===== src/ServerC/Engine.antt =====
-- MySQL behind TypeORM's EntityManager, which is not part of the repository: the statements that the
-- repositories issue, as an interface, with what MySQL documents of each. A statement may always fail
-- (`IsFault`: a lost connection, a lock timeout), and then changes nothing.
use mathlib.Core.List.{Memᴰ, Perm}
use coupon_nestjs.Prelude.{
  ℕ, ℤ, ◌≤◌, ◌+◌, ◌≡◌, ◌≢◌, String, Bool, true, false, ◌&&◌, Option, none, some, List, [], ◌∷◌,
  ◌++◌, All, length, map, any, find?, keep, count_if, ◌==◌, int_eq, nat_eq, string_eq,
  if◌then◌else◌,
}
use coupon_nestjs.Common.Errors.{Exception, query_failed, driver}
use coupon_nestjs.Common.Statuses.{UserCouponStatus, EventStatus, OutboxEventStatus, is_pending}
use coupon_nestjs.Effect.{Result, ok, thrown, Async}
use coupon_nestjs.ServerC.Schema.{
  UserCouponRow, UserCouponValues, InventoryRow, EventRow, OutboxRow, OutboxValues, Db,
}

-- The WHERE clauses.
abbrev pub has_user_type : ℤ → ℤ → UserCouponRow → Bool
has_user_type user_id coupon_type_id r = r.user_id == user_id && r.coupon_type_id == coupon_type_id

-- Of two codes, MySQL compares what the collation of the column (utf8mb4_unicode_ci) makes of them.
abbrev pub has_code : Db → String → UserCouponRow → Bool
has_code db code r = db.collate r.code == db.collate code

abbrev pub has_id : ℤ → UserCouponRow → Bool
has_id id r = r.user_coupon_id == id

abbrev pub has_outbox_id : ℤ → OutboxRow → Bool
has_outbox_id id r = r.outbox_event_id == id

abbrev pub has_version : ℤ → ℕ → UserCouponRow → Bool
has_version id version r = r.user_coupon_id == id && r.version == version

abbrev pub is_stock_of : ℤ → ℤ → InventoryRow → Bool
is_stock_of event_id coupon_type_id r = r.event_id == event_id && r.coupon_type_id == coupon_type_id

abbrev pub has_user : ℤ → UserCouponRow → Bool
has_user u r = r.user_id == u

abbrev pub NewestFirst : List UserCouponRow → Type 0
NewestFirst [] = Unit
NewestFirst (x ∷ []) = Unit
NewestFirst (x ∷ y ∷ rows) = (y.issued_at ≤ x.issued_at) × NewestFirst (y ∷ rows)

abbrev pub has_event_id : ℤ → EventRow → Bool
has_event_id id r = r.event_id == id

-- The rows that the statements write.
abbrev pub coupon_row : UserCouponValues → ℤ → UserCouponRow
coupon_row v id = record {
  user_coupon_id = id;
  code = v.code;
  user_id = v.user_id;
  event_id = v.event_id;
  coupon_type_id = v.coupon_type_id;
  status = v.status;
  issued_at = v.issued_at;
  used_at = v.used_at;
  version = v.version;
}

abbrev pub outbox_row : OutboxValues → ℤ → ℕ → OutboxRow
outbox_row v id created_at = record {
  outbox_event_id = id;
  aggregate_id = v.aggregate_id;
  event_type = v.event_type;
  payload = v.payload;
  status = v.status;
  created_at = created_at;
  published_at = none;
}

-- SET status = 'USED', used_at = ?, version = version + 1 WHERE user_coupon_id = ? AND version = ?
abbrev pub set_used : ℤ → ℕ → ℕ → UserCouponRow → UserCouponRow
set_used id version used_at r =
    if has_version id version r
    then record r {
      status = UserCouponStatus.used;
      used_at = some used_at;
      version = r.version + 1;
    }
    else r

-- SET available_count = ? WHERE coupon_type_inventory_id = ?
abbrev pub set_available : ℤ → ℤ → InventoryRow → InventoryRow
set_available id count r =
    if r.coupon_type_inventory_id == id then record r { available_count = count } else r

-- SET status = 'PUBLISHED', published_at = ? WHERE outbox_event_id IN (?)
abbrev pub set_published : List ℤ → ℕ → OutboxRow → OutboxRow
set_published ids published_at r =
    if any (λ id. r.outbox_event_id == id) ids
    then record r { status = OutboxEventStatus.published; published_at = some published_at }
    else r

-- A failure of the statement or of the connection that is no violated constraint (errno 1062). The
-- program itself throws none of these.
abbrev pub IsFault : Exception → Type 0
IsFault (query_failed q) = q.errno ≢ some 1062
IsFault (driver _) = Unit
IsFault _ = ⊥

abbrev pub duplicate_entry : String → Exception
duplicate_entry key = query_failed (record { errno = some 1062; key = some key })

-- What a statement may do. `out` is what it gives when it runs in `db`.
module _ {A : Type 0} (db : Db) where
  -- A read changes nothing and gives an answer that fits.
  pub data Reads (fits : A → Type 0) (out : Result A × Db) : Type 0 where
    read : (a : A) → fits a → out ≡ (ok a, db) → Reads fits out
    fault : (e : Exception) → IsFault e → out ≡ (thrown e, db) → Reads fits out

  -- A write gives an answer and a database that fit.
  pub data Writes (fits : A → Db → Type 0) (out : Result A × Db) : Type 0 where
    wrote : (a : A) (db' : Db) → fits a db' → out ≡ (ok a, db') → Writes fits out
    fault : (e : Exception) → IsFault e → out ≡ (thrown e, db) → Writes fits out

  -- A transaction keeps what its body wrote, or nothing.
  pub data Commits (body : Async Db A) (out : Result A × Db) : Type 0 where
    committed : (a : A) (db' : Db) → body db ≡ (ok a, db') → out ≡ (ok a, db') → Commits body out
    rolled_back :
        (e : Exception) (db' : Db)
        → body db ≡ (thrown e, db')
        → out ≡ (thrown e, db)
        → Commits body out
    fault : (e : Exception) → IsFault e → out ≡ (thrown e, db) → Commits body out

-- An INSERT into `user_coupon` respects the primary key and the two UNIQUE constraints.
pub data Inserts (v : UserCouponValues) (db : Db) (out : Result (Unit {0}) × Db) : Type 0 where
  inserted :
      (id : ℤ)
      → any (has_id id) db.user_coupon ≡ false
      → any (has_user_type v.user_id v.coupon_type_id) db.user_coupon ≡ false
      → any (has_code db v.code) db.user_coupon ≡ false
      → out ≡ (ok tt, record db { user_coupon = db.user_coupon ++ coupon_row v id ∷ [] })
      → Inserts v db out
  same_user_type :
      any (has_user_type v.user_id v.coupon_type_id) db.user_coupon ≡ true
      → out ≡ (thrown (duplicate_entry "uk_user_coupon_user_type"), db)
      → Inserts v db out
  same_code :
      any (has_code db v.code) db.user_coupon ≡ true
      → out ≡ (thrown (duplicate_entry "uk_user_coupon_code"), db)
      → Inserts v db out
  fault : (e : Exception) → IsFault e → out ≡ (thrown e, db) → Inserts v db out

-- An INSERT into `outbox_event` gives the row an identifier that no other row has, and a time.
pub record OutboxAppended (v : OutboxValues) (db db' : Db) : Type 0 where
  pub id : ℤ
  pub created_at : ℕ
  pub is_new : any (has_outbox_id id) db.outbox ≡ false
  pub appended : db' ≡ record db { outbox = db.outbox ++ outbox_row v id created_at ∷ [] }

pub record Engine : Type 1 where
  pub transaction : (A : Type 0) → Async Db A → Async Db A
  pub transaction_lem :
      (A : Type 0) (body : Async Db A) (db : Db) → Commits db body (transaction A body db)
  -- A plain SELECT in a transaction reads its snapshot: a row of another transaction that committed
  -- after the snapshot was taken is not counted, though it is in the table by now.
  pub count_coupons : ℤ → ℤ → Async Db ℕ
  pub count_coupons_lem :
      (u t : ℤ) (db : Db)
      → Reads db (λ n. n ≤ count_if (has_user_type u t) db.user_coupon) (count_coupons u t db)
  pub find_coupon_by_code : String → Async Db (Option UserCouponRow)
  pub find_coupon_by_code_lem :
      (code : String) (db : Db)
      → Reads db (λ o. o ≡ find? (has_code db code) db.user_coupon) (find_coupon_by_code code db)
  pub find_coupon : ℤ → ℤ → Async Db (Option UserCouponRow)
  pub find_coupon_lem :
      (u t : ℤ) (db : Db)
      → Reads db (λ o. o ≡ find? (has_user_type u t) db.user_coupon) (find_coupon u t db)
  -- … ORDER BY issued_at DESC
  pub find_coupons_of : ℤ → Async Db (List UserCouponRow)
  pub find_coupons_of_lem :
      (u : ℤ) (db : Db)
      → Reads db
          (λ rows. Perm rows (keep (has_user u) db.user_coupon) × NewestFirst rows)
          (find_coupons_of u db)
  pub insert_coupon : UserCouponValues → Async Db (Unit {0})
  pub insert_coupon_lem : (v : UserCouponValues) (db : Db) → Inserts v db (insert_coupon v db)
  -- The number of rows that the UPDATE changed; the driver may leave it out of its result.
  pub update_used : ℤ → ℕ → ℕ → Async Db (Option ℕ)
  pub update_used_lem :
      (id : ℤ) (version used_at : ℕ) (db : Db)
      → Writes db
          (λ n db'.
            (n ≡ some (count_if (has_version id version) db.user_coupon))
            × (db' ≡ record db { user_coupon = map (set_used id version used_at) db.user_coupon }))
          (update_used id version used_at db)
  -- SELECT … FOR UPDATE: the row as it is now, locked until the transaction ends.
  pub lock_inventory : ℤ → ℤ → Async Db (Option InventoryRow)
  pub lock_inventory_lem :
      (e t : ℤ) (db : Db)
      → Reads db (λ o. o ≡ find? (is_stock_of e t) db.inventory) (lock_inventory e t db)
  pub find_inventory : ℤ → ℤ → Async Db (Option InventoryRow)
  pub find_inventory_lem :
      (e t : ℤ) (db : Db)
      → Reads db (λ o. o ≡ find? (is_stock_of e t) db.inventory) (find_inventory e t db)
  pub update_available : ℤ → ℤ → Async Db (Unit {0})
  pub update_available_lem :
      (id count : ℤ) (db : Db)
      → Writes db
          (λ _ db'. db' ≡ record db { inventory = map (set_available id count) db.inventory })
          (update_available id count db)
  pub find_event : ℤ → Async Db (Option EventRow)
  pub find_event_lem :
      (id : ℤ) (db : Db) → Reads db (λ o. o ≡ find? (has_event_id id) db.event) (find_event id db)
  pub find_events : EventStatus → Async Db (List EventRow)
  pub find_events_lem :
      (status : EventStatus) (db : Db)
      → Reads db
          (λ rows. All (λ r. Memᴰ r db.event × (r.status ≡ status)) rows)
          (find_events status db)
  pub insert_outbox : OutboxValues → Async Db (Unit {0})
  pub insert_outbox_lem :
      (v : OutboxValues) (db : Db)
      → Writes db (λ _ db'. OutboxAppended v db db') (insert_outbox v db)
  -- Rows with status PENDING, the oldest first; rows of one instant come in any order.
  pub find_pending : ℕ → Async Db (List OutboxRow)
  pub find_pending_lem :
      (limit : ℕ) (db : Db)
      → Reads db
          (λ rows.
            All (λ r. Memᴰ r db.outbox × (is_pending r.status ≡ true)) rows × (length rows ≤ limit))
          (find_pending limit db)
  pub update_published : List ℤ → ℕ → Async Db (Unit {0})
  pub update_published_lem :
      (ids : List ℤ) (published_at : ℕ) (db : Db)
      → Writes db
          (λ _ db'. db' ≡ record db { outbox = map (set_published ids published_at) db.outbox })
          (update_published ids published_at db)
