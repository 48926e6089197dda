-- ===== src/ServerC/System/Invariants.antt =====
-- What every sequence of deliveries and redeem calls keeps: the stock is balanced and keys are unique.
use coupon_nestjs.Prelude.{inl, inr, ℕ, ℤ, ◌≡◌, ◌≤◌, ap, List, [], ◌∷◌, some, find?, arith}
use coupon_nestjs.Common.Payloads.{CouponIssueRequestPayload, CouponIssueResultPayload}
use coupon_nestjs.Common.Broker.{Broker}
use coupon_nestjs.ServerC.Poller.Cycle.{Polled, poll_lem}
use coupon_nestjs.Common.Cache.{Redis}
use coupon_nestjs.Effect.{Result}
use coupon_nestjs.ServerC.Schema.{InventoryRow, Db}
use coupon_nestjs.ServerC.Engine.{Engine, is_stock_of}
use coupon_nestjs.ServerC.World.{World}
use coupon_nestjs.ServerC.Issue.{Moment}
use coupon_nestjs.ServerC.Issue.Process.{Processed, decided, repeated, failed, process_lem}
use coupon_nestjs.ServerC.Issue.Stock.{IsStocked, issued_count, as_nat, Decides-IsStocked}
use coupon_nestjs.ServerC.Issue.Unique.{IsUnique, Decides-IsUnique}
use coupon_nestjs.ServerC.Redeem.Refinement.{redeem_lem}
use coupon_nestjs.ServerC.Redeem.Keeps.{Redeemed-IsStocked, Redeemed-IsUnique}
use coupon_nestjs.ServerC.System.{Call, deliver, redeem_at, poll_at, step, run}

pub record IsSound (db : Db) : Type 0 where
  pub stocked : IsStocked db
  pub unique : IsUnique db

Processed-IsSound :
    (request : CouponIssueRequestPayload) (at : Moment) (w : World)
    (out : Result (Unit {0}) × World)
    → Processed request at w out
    → IsSound w.db
    → IsSound out.1.db
Processed-IsSound request at w out (decided flag db' d e e' logs kept quiet) s = rw e' (record {
  stocked = Decides-IsStocked request at w.db flag db' d s.stocked;
  unique = Decides-IsUnique request at w.db flag db' d s.unique;
})
Processed-IsSound request at w out (repeated held e) s = rw (ap (λ p. p.1.db) e) s
Processed-IsSound request at w out (failed e why other e') s = rw (ap (λ p. p.1.db) e') s

Polled-IsSound :
    (now : ℕ) (w : World) (out : Result (Unit {0}) × World)
    → Polled now w out
    → IsSound w.db
    → IsSound out.1.db
Polled-IsSound now w out p s = elim p.db_after [
  | inl e ↦ rw e s
  | inr (ids, e) ↦ rw e (record {
    stocked = record { keyed = s.stocked.keyed; balanced = s.stocked.balanced };
    unique = record {
      ids = s.unique.ids;
      user_types = s.unique.user_types;
      codes = s.unique.codes;
    };
  })
]

module _ (em : Engine) (redis : Redis) (broker : Broker CouponIssueResultPayload)
    (ttl batch_size : ℕ) where
  pub step-IsSound :
      (call : Call) (w : World)
      → IsSound w.db
      → IsSound (step em redis broker ttl batch_size call w).db
  unfolding step
  step-IsSound (deliver request at) w s =
      Processed-IsSound request at w _ (process_lem request at em redis ttl w) s
  step-IsSound (redeem_at command now) w s =
      let r = redeem_lem command now em w.db in
      record {
        stocked = Redeemed-IsStocked command now w.db _ _ r s.unique s.stocked;
        unique = Redeemed-IsUnique command now w.db _ _ r s.unique;
      }
  step-IsSound (poll_at now) w s = Polled-IsSound now w _ (poll_lem em broker batch_size now w) s

  -- From a sound database, any sequence of deliveries, redeem calls and poller cycles, whatever each
  -- of them returns or throws, leads to a sound one: every stock row has a count that is not negative
  -- and that adds up to its total with the coupons issued (used ones included), and in `user_coupon`
  -- no identifier, no pair of user and coupon type and no code stands twice.
  pub run-IsSound :
      (calls : List Call) (w : World)
      → IsSound w.db
      → IsSound (run em redis broker ttl batch_size calls w).db
  run-IsSound [] w s = s
  run-IsSound (call ∷ calls) w s = run-IsSound calls _ (step-IsSound call w s)

  -- From a sound database, after any sequence of deliveries, redeem calls and poller cycles, a coupon
  -- type has no more issued coupons than its stock row's total.
  pub run-no_oversell :
      (calls : List Call) (w : World) (e t : ℤ) (row : InventoryRow)
      → IsSound w.db
      → find? (is_stock_of e t) (run em redis broker ttl batch_size calls w).db.inventory ≡ some row
      → issued_count e t (run em redis broker ttl batch_size calls w).db
        ≤ as_nat row.total_inventory
  run-no_oversell calls w e t row s found =
      let b = (run-IsSound calls w s).stocked.balanced e t row found in rw b.adds_up (omega arith)
