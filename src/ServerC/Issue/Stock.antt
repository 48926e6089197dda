-- ===== src/ServerC/Issue/Stock.antt =====
-- The stock of a coupon type: what is left and what was issued add up to the total, and no delivery
-- changes that.
use mathlib.Core.Option
use mathlib.Core.Bool.{and-eq-true_iff}
use native.Mathlib.Nat.{add-zero}
use coupon_nestjs.Prelude.{
  ℕ, String, ◌+◌, ◌≡◌, refl, sym, ◌∙◌, inl, inr, ℤ, pos, negsuc, Bool, true, false, ◌&&◌, Option,
  none, some, List, [], ◌∷◌, ◌++◌, map, find?, count_if, is_positive, decremented, arith, ==_refl,
  if◌then◌else◌, ◌==◌, int_eq, int_beq_iff, find?-map, count_if-append, Bool-cases,
}
use coupon_nestjs.Common.Statuses.{UserCouponStatus, CouponIssueResultStatus}
use coupon_nestjs.Common.Payloads.{CouponIssueRequestPayload}
use coupon_nestjs.ServerC.Schema.{UserCouponRow, InventoryRow, Db}
use coupon_nestjs.ServerC.Engine.{is_stock_of, set_available}
use coupon_nestjs.ServerC.Issue.{Moment}
use coupon_nestjs.ServerC.Issue.Spec.{
  row_status, taken, Recorded, Decides, known, inactive, depleted, issued,
}

-- A row that took a piece of the stock, whether or not the coupon has been used since.
abbrev pub took_stock : UserCouponStatus → Bool
took_stock UserCouponStatus.success = true
took_stock UserCouponStatus.used = true
took_stock UserCouponStatus.sold_out = false
took_stock UserCouponStatus.failed = false

abbrev pub is_issue_of : ℤ → ℤ → UserCouponRow → Bool
is_issue_of e t r = took_stock r.status && (r.event_id == e && r.coupon_type_id == t)

abbrev pub issued_count : ℤ → ℤ → Db → ℕ
issued_count e t db = count_if (is_issue_of e t) db.user_coupon

abbrev pub as_nat : ℤ → ℕ
as_nat (pos n) = n
as_nat (negsuc n) = 0

-- `n` pieces of the stock row are issued: the count is not negative, and nothing is lost.
pub record Balanced (n : ℕ) (row : InventoryRow) : Type 0 where
  pub not_negative : row.available_count ≡ pos (as_nat row.available_count)
  pub adds_up : row.total_inventory ≡ pos (as_nat row.available_count + n)

-- The primary key and the UNIQUE constraint of `coupon_type_inventory`.
abbrev pub IsKeyed : List InventoryRow → Type 0
IsKeyed rows =
    (e t e' t' : ℤ) (x y : InventoryRow)
    → find? (is_stock_of e t) rows ≡ some x
    → find? (is_stock_of e' t') rows ≡ some y
    → x.coupon_type_inventory_id ≡ y.coupon_type_inventory_id
    → (e ≡ e') × (t ≡ t')

pub record IsStocked (db : Db) : Type 0 where
  pub keyed : IsKeyed db.inventory
  pub balanced :
      (e t : ℤ) (x : InventoryRow)
      → find? (is_stock_of e t) db.inventory ≡ some x
      → Balanced (issued_count e t db) x

take-Balanced :
    (n : ℕ) (row : InventoryRow)
    → Balanced n row
    → is_positive row.available_count ≡ true
    → Balanced (n + 1) (record row { available_count = decremented row.available_count })
take-Balanced n row b h = ground arith

-- What an UPDATE of the stock leaves at a key is what stood there, updated.
pub stock-set_available :
    (id count e t : ℤ) (rows : List InventoryRow)
    → find? (is_stock_of e t) (map (set_available id count) rows)
      ≡ Option.map (set_available id count) (find? (is_stock_of e t) rows)
stock-set_available id count e t rows =
    find?-map (is_stock_of e t) (set_available id count) rows λ x. ground arith

-- The rows before an update, given one after it.
before_update :
    (id count : ℤ) (o : Option InventoryRow) (x : InventoryRow)
    → Option.map (set_available id count) o ≡ some x
    → (y : InventoryRow) × (o ≡ some y) × (x ≡ set_available id count y)
before_update id count none x h = absurd (cc h)
before_update id count (some y) x h = (y, refl, cc h)

found_before :
    (id count e t : ℤ) (rows : List InventoryRow) (x : InventoryRow)
    → find? (is_stock_of e t) (map (set_available id count) rows) ≡ some x
    → (y : InventoryRow) × (find? (is_stock_of e t) rows ≡ some y) × (x ≡ set_available id count y)
found_before id count e t rows x h =
    before_update id count (find? (is_stock_of e t) rows) x
      (sym (stock-set_available id count e t rows) ∙ h)

id-set_available :
    (id count : ℤ) (y : InventoryRow)
    → (set_available id count y).coupon_type_inventory_id ≡ y.coupon_type_inventory_id
id-set_available id count y = ground arith

IsKeyed-set_available :
    (id count : ℤ) (rows : List InventoryRow)
    → IsKeyed rows
    → IsKeyed (map (set_available id count) rows)
IsKeyed-set_available id count rows keyed e t e' t' x y found found' same =
    let (x0, was, now) = found_before id count e t rows x found in
    let (y0, was', now') = found_before id count e' t' rows y found' in
    keyed e t e' t' x0 y0 was was'
      (cc (same, now, now', id-set_available id count x0, id-set_available id count y0))

-- A new row counts if it takes a piece.
issued_count-snoc :
    (e t : ℤ) (rows : List UserCouponRow) (r : UserCouponRow)
    → count_if (is_issue_of e t) (rows ++ r ∷ [])
      ≡ count_if (is_issue_of e t) rows + (if is_issue_of e t r then 1 else 0)
issued_count-snoc e t rows r = omega (arith, count_if-append (is_issue_of e t) rows (r ∷ []))

module _ (request : CouponIssueRequestPayload) (at : Moment) where
  -- A row of a user who got nothing takes no stock.
  reject-IsStocked :
      (status : CouponIssueResultStatus) (code : Option String) (db db' : Db)
      → took_stock (row_status status) ≡ false
      → Recorded request at status code db db'
      → IsStocked db
      → IsStocked db'
  reject-IsStocked status code db db' free r s = rw r.after (record {
    keyed = s.keyed;
    balanced = λ e t x found.
        rw (issued_count-snoc e t db.user_coupon _, free, add-zero) (s.balanced e t x found);
  })

  -- The stock row at the request's key has one piece less and one issued row more.
  taken-Balanced :
      (row : InventoryRow) (db : Db) (e t : ℤ) (y : InventoryRow)
      → IsStocked db
      → find? (is_stock_of request.event_id request.coupon_type_id) db.inventory ≡ some row
      → is_positive row.available_count ≡ true
      → find? (is_stock_of e t) db.inventory ≡ some y
      → (same : Bool) → (y.coupon_type_inventory_id == row.coupon_type_inventory_id) ≡ same
      → Balanced
          (issued_count e t db
            + (if request.event_id == e && request.coupon_type_id == t then 1 else 0))
          (if same then record y { available_count = decremented row.available_count } else y)
  taken-Balanced row db e t y s found more was true eq =
      let (same_e, same_t) =
        s.keyed e t request.event_id request.coupon_type_id y row was found
          ((int_beq_iff _ _).0 eq) in
      let same_row : y ≡ row = cc in
      rw (same_row, same_e, same_t, ==_refl request.event_id, ==_refl request.coupon_type_id)
        (take-Balanced _ row (s.balanced _ _ row found) more)
  taken-Balanced row db e t y s found more was false eq =
      elim (Bool-cases (request.event_id == e && request.coupon_type_id == t)) [
        | inl at_key ↦
            let (at_e, at_t) = (and-eq-true_iff _ _).0 at_key in
            let same_e : request.event_id ≡ e = (int_beq_iff _ _).0 at_e in
            let same_t : request.coupon_type_id ≡ t = (int_beq_iff _ _).0 at_t in
            let same_row : y ≡ row = cc in
            absurd (cc (same_row, ==_refl row.coupon_type_inventory_id, eq))
        | inr elsewhere ↦ rw (elsewhere, add-zero) (s.balanced e t y was)
      ]

  issue-IsStocked :
      (row : InventoryRow) (db db' : Db)
      → find? (is_stock_of request.event_id request.coupon_type_id) db.inventory ≡ some row
      → is_positive row.available_count ≡ true
      → Recorded request at CouponIssueResultStatus.success (some at.code) (taken row db) db'
      → IsStocked db
      → IsStocked db'
  issue-IsStocked row db db' found more r s = rw r.after (record {
    keyed = IsKeyed-set_available _ _ db.inventory s.keyed;
    balanced = λ e t x after.
        let (y, was, now) = found_before _ _ e t db.inventory x after in
        rw (now, issued_count-snoc e t db.user_coupon _)
          (taken-Balanced row db e t y s found more was _ refl);
  })

  -- Whatever a delivery decides, every stock row stays balanced.
  pub Decides-IsStocked :
      (db : Db) (flag : Bool) (db' : Db)
      → Decides request at db flag db'
      → IsStocked db
      → IsStocked db'
  Decides-IsStocked db flag db' (known held f e) s = rw e s
  Decides-IsStocked db flag db' (inactive event found over f r) s =
      reject-IsStocked CouponIssueResultStatus.failed none db db' refl r s
  Decides-IsStocked db flag db' (depleted event row found active at_row empty f r) s =
      reject-IsStocked CouponIssueResultStatus.sold_out none db db' refl r s
  Decides-IsStocked db flag db' (issued event row found active at_row more f r) s =
      issue-IsStocked row db db' at_row more r s
