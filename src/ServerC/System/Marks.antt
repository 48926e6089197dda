-- ===== src/ServerC/System/Marks.antt =====
-- The sold-out mark of a coupon type is never there while the type has stock.
use mathlib.Core.Option
use coupon_nestjs.Prelude.{
  ℕ, ℤ, pos, ◌≡◌, sym, ap, ◌∙◌, inl, inr, List, [], ◌∷◌, Bool, true, false, some, find?, is_some,
  Bool-cases, ◌==◌, int_eq, string_eq, is_positive, int_beq_iff, map, String,
}
use coupon_nestjs.Common.Payloads.{CouponIssueRequestPayload, CouponIssueResultPayload}
use coupon_nestjs.Common.Broker.{Broker}
use coupon_nestjs.Common.Cache.{Cache, Redis, stored}
use coupon_nestjs.Effect.{Result}
use coupon_nestjs.ServerC.Schema.{InventoryRow, Db}
use coupon_nestjs.ServerC.Engine.{Engine, is_stock_of, set_available}
use coupon_nestjs.ServerC.SoldOut.{coupon_available, sentinel_value}
use coupon_nestjs.ServerC.World.{World}
use coupon_nestjs.ServerC.Poller.Cycle.{Polled, poll_lem}
use coupon_nestjs.ServerC.Issue.{Moment}
use coupon_nestjs.ServerC.Issue.Spec.{Decides, known, inactive, depleted, issued}
use coupon_nestjs.ServerC.Issue.Process.{
  same, sold_out, Processed, decided, repeated, failed, process_lem,
}
use coupon_nestjs.ServerC.Issue.Stock.{IsKeyed, stock-set_available}
use coupon_nestjs.ServerC.Redeem.{RedeemCommand, RedeemResult}
use coupon_nestjs.ServerC.Redeem.Refinement.{
  Redeemed, missing, masked, replayed, refused, won, fault, redeem_lem,
}
use coupon_nestjs.ServerC.System.{Call, deliver, redeem_at, poll_at, step, run}
use coupon_nestjs.ServerC.System.Invariants.{IsSound, step-IsSound}

-- The stock row of a key stands at zero.
pub record IsEmptied (e t : ℤ) (inventory : List InventoryRow) : Type 0 where
  pub row : InventoryRow
  pub found : find? (is_stock_of e t) inventory ≡ some row
  pub zero_left : row.available_count ≡ pos 0

-- What `key` marks.
pub record Marks (key : String) (inventory : List InventoryRow) : Type 0 where
  pub event_id : ℤ
  pub coupon_type_id : ℤ
  pub is_key : coupon_available event_id coupon_type_id ≡ key
  pub emptied : IsEmptied event_id coupon_type_id inventory

abbrev pub IsMarkedRight : List InventoryRow → Cache → Type 0
IsMarkedRight inventory cache =
    (e t : ℤ)
    → is_some (cache (coupon_available e t)) ≡ true
    → Marks (coupon_available e t) inventory

-- A row at zero is no row that has stock.
other_row :
    (inventory : List InventoryRow) (e t e' t' : ℤ) (row empty : InventoryRow)
    → IsKeyed inventory
    → find? (is_stock_of e' t') inventory ≡ some row
    → is_positive row.available_count ≡ true
    → find? (is_stock_of e t) inventory ≡ some empty
    → empty.available_count ≡ pos 0
    → (empty.coupon_type_inventory_id == row.coupon_type_inventory_id) ≡ false
other_row inventory e t e' t' row empty keyed at more found none_left =
    elim (Bool-cases (empty.coupon_type_inventory_id == row.coupon_type_inventory_id)) [
      | inr other ↦ other
      | inl one ↦
          let (same_e, same_t) = keyed e t e' t' empty row found at ((int_beq_iff _ _).0 one) in
          let at_key : find? (is_stock_of e t) inventory ≡ some row = rw (same_e, same_t) at in
          let same_row : empty ≡ row = cc in
          let left : is_positive row.available_count ≡ false = rw (← same_row, none_left) in
          absurd (cc (left, more))
    ]

-- A unit is not taken from a row at zero.
IsEmptied-set_available :
    (inventory : List InventoryRow) (e t e' t' : ℤ) (row : InventoryRow) (count : ℤ)
    → IsKeyed inventory
    → find? (is_stock_of e' t') inventory ≡ some row
    → is_positive row.available_count ≡ true
    → IsEmptied e t inventory
    → IsEmptied e t (map (set_available row.coupon_type_inventory_id count) inventory)
IsEmptied-set_available inventory e t e' t' row count keyed at more h = record {
  row = h.row;
  found =
      stock-set_available row.coupon_type_inventory_id count e t inventory
      ∙ ap (Option.map (set_available row.coupon_type_inventory_id count)) h.found
      ∙ ap some (rw (other_row inventory e t e' t' row h.row keyed at more h.found h.zero_left));
  zero_left = h.zero_left;
}

Decides-IsEmptied :
    (request : CouponIssueRequestPayload) (at : Moment) (db : Db) (flag : Bool) (db' : Db) (e t : ℤ)
    → Decides request at db flag db'
    → IsKeyed db.inventory
    → IsEmptied e t db.inventory
    → IsEmptied e t db'.inventory
Decides-IsEmptied request at db flag db' e t (known held f x) keyed h = rw x h
Decides-IsEmptied request at db flag db' e t (inactive event found over f r) keyed h = rw r.after h
Decides-IsEmptied request at db flag db' e t (depleted event row found active at_row empty f r)
      keyed h =
    rw r.after h
Decides-IsEmptied request at db flag db' e t (issued event row found active at_row more f r) keyed
      h =
    rw r.after (
      IsEmptied-set_available db.inventory e t request.event_id request.coupon_type_id row _ keyed
        at_row more h)

stored_ne :
    (key k value : String) (cache : Cache) → (key == k) ≡ false → stored key value cache k ≡ cache k
stored_ne key k value cache h = rw h

-- A mark of an emptied type joins the marks.
stored-IsMarkedRight :
    (inventory : List InventoryRow) (cache : Cache) (e t : ℤ)
    → IsEmptied e t inventory
    → IsMarkedRight inventory cache
    → IsMarkedRight inventory (stored (coupon_available e t) sentinel_value cache)
stored-IsMarkedRight inventory cache e t h marks e' t' there =
    elim (Bool-cases (coupon_available e t == coupon_available e' t')) [
      | inl one ↦ record {
        event_id = e;
        coupon_type_id = t;
        is_key = string_eq.eq_of_same _ _ one;
        emptied = h;
      }
      | inr other ↦
          marks e' t' (ap is_some (sym (stored_ne _ _ sentinel_value cache other)) ∙ there)
    ]

Processed-IsMarkedRight :
    (request : CouponIssueRequestPayload) (at : Moment) (w : World)
    (out : Result (Unit {0}) × World)
    → Processed request at w out
    → IsKeyed w.db.inventory
    → IsMarkedRight w.db.inventory w.cache
    → IsMarkedRight out.1.db.inventory out.1.cache
Processed-IsMarkedRight request at w out (decided flag db' d e e' logs kept quiet) keyed marks =
    let old : IsMarkedRight db'.inventory w.cache = λ x y there.
      let m = marks x y there in
      record {
        event_id = m.event_id;
        coupon_type_id = m.coupon_type_id;
        is_key = m.is_key;
        emptied = Decides-IsEmptied request at w.db flag db' _ _ d keyed m.emptied;
      } in
    elim kept [
      | same unchanged ↦ rw (e', unchanged) old
      | sold_out row found none_left now ↦
          rw (e', now)
            (stored-IsMarkedRight db'.inventory w.cache request.event_id request.coupon_type_id
              (record { row = row; found = found; zero_left = none_left }) old)
    ]
Processed-IsMarkedRight request at w out (repeated held e) keyed marks = rw (ap (λ p. p.1) e) marks
Processed-IsMarkedRight request at w out (failed e why other e') keyed marks =
    rw (ap (λ p. p.1) e') marks

-- A redeem call and a poller cycle touch no stock.
Redeemed-inventory :
    (command : RedeemCommand) (now : ℕ) (db : Db) (r : Result RedeemResult) (db' : Db)
    → Redeemed command now db (r, db')
    → db'.inventory ≡ db.inventory
Redeemed-inventory command now db r db' (missing n e) = ap (λ p. p.1.inventory) e
Redeemed-inventory command now db r db' (masked row f n e) = ap (λ p. p.1.inventory) e
Redeemed-inventory command now db r db' (replayed row t o n e) = ap (λ p. p.1.inventory) e
Redeemed-inventory command now db r db' (refused row o n x e) = ap (λ p. p.1.inventory) e
Redeemed-inventory command now db r db' (won row o n x e) = ap (λ p. p.1.inventory) e
Redeemed-inventory command now db r db' (fault x f e) = ap (λ p. p.1.inventory) e

Polled-IsMarkedRight :
    (now : ℕ) (w : World) (out : Result (Unit {0}) × World)
    → Polled now w out
    → IsMarkedRight w.db.inventory w.cache
    → IsMarkedRight out.1.db.inventory out.1.cache
Polled-IsMarkedRight now w out p marks = elim p.db_after [
  | inl e ↦ rw (e, p.cache_same) marks
  | inr (ids, e) ↦ rw (e, p.cache_same) marks
]

module _ (em : Engine) (redis : Redis) (broker : Broker CouponIssueResultPayload)
    (ttl batch_size : ℕ) where
  step-IsMarkedRight :
      (call : Call) (w : World)
      → IsSound w.db
      → IsMarkedRight w.db.inventory w.cache
      → let w' = step em redis broker ttl batch_size call w in
        IsMarkedRight w'.db.inventory w'.cache
  unfolding step
  step-IsMarkedRight (deliver request at) w s h =
      Processed-IsMarkedRight request at w _ (process_lem request at em redis ttl w) s.stocked.keyed
        h
  step-IsMarkedRight (redeem_at command now) w s h =
      rw (Redeemed-inventory command now w.db _ _ (redeem_lem command now em w.db)) h
  step-IsMarkedRight (poll_at now) w s h =
      Polled-IsMarkedRight now w _ (poll_lem em broker batch_size now w) h

  -- From a sound database on, any sequence of deliveries, redeem calls and poller cycles keeps: a
  -- sold-out key that Redis has is the key of a coupon type whose stock row stands at zero.
  pub run-IsMarkedRight :
      (calls : List Call) (w : World)
      → IsSound w.db
      → IsMarkedRight w.db.inventory w.cache
      → let w' = run em redis broker ttl batch_size calls w in
        IsMarkedRight w'.db.inventory w'.cache
  run-IsMarkedRight [] w s h = h
  run-IsMarkedRight (call ∷ calls) w s h =
      run-IsMarkedRight calls _ (step-IsSound em redis broker ttl batch_size call w s)
        (step-IsMarkedRight call w s h)
