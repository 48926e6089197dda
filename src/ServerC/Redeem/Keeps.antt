-- ===== src/ServerC/Redeem/Keeps.antt =====
-- A use of a coupon moves no stock, and touches no key of any row.
use mathlib.Core.List.{Memᴰ}
use coupon_nestjs.Prelude.{
  ap, ℕ, ◌≡◌, refl, ℤ, true, false, List, [], ◌∷◌, map, any, count_if, ◌==◌, int_eq, int_beq_comm,
  Distinct, Distinct-map, Mem-find?, any_of_Mem, arith, ==_refl, Bool-cases, inl, inr,
}
use coupon_nestjs.Common.Statuses.{is_success}
use coupon_nestjs.Effect.{Result}
use coupon_nestjs.ServerC.Schema.{UserCouponRow, Db}
use coupon_nestjs.ServerC.Engine.{set_used}
use coupon_nestjs.ServerC.Issue.Stock.{took_stock, is_issue_of, IsStocked}
use coupon_nestjs.ServerC.Issue.Unique.{same_id, same_user_type, same_code, IsUnique}
use coupon_nestjs.ServerC.Redeem.{RedeemCommand, RedeemResult}
use coupon_nestjs.ServerC.Redeem.Refinement.{
  after_use, Redeemed, missing, masked, replayed, refused, won, fault,
}

-- An UPDATE of another row's id.
count-use_ne :
    (e t id : ℤ) (version now : ℕ) (rows : List UserCouponRow)
    → any (λ y. id == y.user_coupon_id) rows ≡ false
    → count_if (is_issue_of e t) (map (set_used id version now) rows)
      ≡ count_if (is_issue_of e t) rows
count-use_ne e t id version now [] h = refl
count-use_ne e t id version now (x ∷ rows) h =
    ground (arith, int_beq_comm id x.user_coupon_id, count-use_ne e t id version now rows)

is_issue-use :
    (e t : ℤ) (now : ℕ) (row : UserCouponRow)
    → is_success row.status ≡ true
    → is_issue_of e t (set_used row.user_coupon_id row.version now row) ≡ is_issue_of e t row
is_issue-use e t now row s =
    let used : took_stock row.status ≡ true = ground arith in
    rw (==_refl row.user_coupon_id, ==_refl row.version, used)

is_issue-use_ne :
    (e t : ℤ) (now : ℕ) (row x : UserCouponRow)
    → (x.user_coupon_id == row.user_coupon_id) ≡ false
    → is_issue_of e t (set_used row.user_coupon_id row.version now x) ≡ is_issue_of e t x
is_issue-use_ne e t now row x h = rw h

count-use_head :
    (e t : ℤ) (now : ℕ) (row x : UserCouponRow) (rows : List UserCouponRow)
    → any (λ y. row.user_coupon_id == y.user_coupon_id) rows ≡ false
    → is_success row.status ≡ true
    → row ≡ x
    → count_if (is_issue_of e t) (map (set_used row.user_coupon_id row.version now) (x ∷ rows))
      ≡ count_if (is_issue_of e t) (x ∷ rows)
count-use_head e t now row x rows d s same =
    rw (
      ← same,
      is_issue-use e t now row s,
      count-use_ne e t row.user_coupon_id row.version now rows d,
    )

count-use :
    (e t : ℤ) (now : ℕ) (row : UserCouponRow) (rows : List UserCouponRow)
    → Distinct same_id rows
    → Memᴰ row rows
    → is_success row.status ≡ true
    → count_if (is_issue_of e t) (map (set_used row.user_coupon_id row.version now) rows)
      ≡ count_if (is_issue_of e t) rows
count-use e t now row [] d m s = elim m [ ]
count-use e t now row (x ∷ rows) d (Memᴰ.head same) s =
    count-use_head e t now row x rows (rw same d.0) s same
count-use e t now row (x ∷ rows) d (Memᴰ.tail m) s =
    elim (Bool-cases (x.user_coupon_id == row.user_coupon_id)) [
      | inl same ↦
          absurd (cc (any_of_Mem (λ y. x.user_coupon_id == y.user_coupon_id) rows m same, d.0))
      | inr other ↦ rw (is_issue-use_ne e t now row x other, count-use e t now row rows d.1 m s)
    ]

use-IsStocked :
    (now : ℕ) (row : UserCouponRow) (db : Db)
    → IsUnique db
    → Memᴰ row db.user_coupon
    → is_success row.status ≡ true
    → IsStocked db
    → IsStocked (after_use row now db)
use-IsStocked now row db u m s h = record {
  keyed = h.keyed;
  balanced =
      λ e t x found. rw (count-use e t now row db.user_coupon u.ids m s) (h.balanced e t x found);
}

use-IsUnique :
    (now : ℕ) (row : UserCouponRow) (db : Db) → IsUnique db → IsUnique (after_use row now db)
use-IsUnique now row db u =
    let f = set_used row.user_coupon_id row.version now in
    record {
      ids = Distinct-map same_id f db.user_coupon (λ x y. ground arith) u.ids;
      user_types = Distinct-map same_user_type f db.user_coupon (λ x y. ground arith) u.user_types;
      codes = Distinct-map (same_code db) f db.user_coupon (λ x y. ground arith) u.codes;
    }

module _ (command : RedeemCommand) (now : ℕ) where
  pub Redeemed-IsStocked :
      (db : Db) (r : Result RedeemResult) (db' : Db)
      → Redeemed command now db (r, db')
      → IsUnique db
      → IsStocked db
      → IsStocked db'
  Redeemed-IsStocked db r db' (missing n e) u s = rw (ap (λ p. p.1) e) s
  Redeemed-IsStocked db r db' (masked row f n e) u s = rw (ap (λ p. p.1) e) s
  Redeemed-IsStocked db r db' (replayed row t o n e) u s = rw (ap (λ p. p.1) e) s
  Redeemed-IsStocked db r db' (refused row o n x e) u s = rw (ap (λ p. p.1) e) s
  Redeemed-IsStocked db r db' (won row o n success e) u s =
      rw (ap (λ p. p.1) e)
        (use-IsStocked now row db u (Mem-find? _ db.user_coupon o.found) success s)
  Redeemed-IsStocked db r db' (fault x f e) u s = rw (ap (λ p. p.1) e) s

  pub Redeemed-IsUnique :
      (db : Db) (r : Result RedeemResult) (db' : Db)
      → Redeemed command now db (r, db')
      → IsUnique db
      → IsUnique db'
  Redeemed-IsUnique db r db' (missing n e) u = rw (ap (λ p. p.1) e) u
  Redeemed-IsUnique db r db' (masked row f n e) u = rw (ap (λ p. p.1) e) u
  Redeemed-IsUnique db r db' (replayed row t o n e) u = rw (ap (λ p. p.1) e) u
  Redeemed-IsUnique db r db' (refused row o n x e) u = rw (ap (λ p. p.1) e) u
  Redeemed-IsUnique db r db' (won row o n success e) u =
      rw (ap (λ p. p.1) e) (use-IsUnique now row db u)
  Redeemed-IsUnique db r db' (fault x f e) u = rw (ap (λ p. p.1) e) u
