-- ===== src/ServerB/Keys/Apart.antt =====
-- Each user and coupon type has a key and a member of its own, which can be read back.
use Prim.Native.Char.{Char}
use Prim.Native.String.{[], ◌∷◌, ◌++◌}
use text.Mathlib.TextLemmas.{nil-append, cons-append, append_cancel_left}
use mathlib.Core.Bool.{and-eq-true_iff}
use coupon_nestjs.Prelude.{
  ℕ, zero, suc, ℤ, pos, negsuc, ◌/◌, ◌%◌, ◌≡◌, refl, sym, ap, ◌∙◌, inl, inr, String, Bool, false,
  ◌||◌, ◌&&◌, some, List, arith, Bool-cases, ◌==◌, int_eq, string_eq, ==_refl,
}
use coupon_nestjs.Common.Text.{text_laws, digits, show_nat, show_int}
use coupon_nestjs.Common.Requests.{read_long}
use coupon_nestjs.Common.Requests.RoundTrip.{digit, is_digit-digit, read_long-show_int}
use coupon_nestjs.ServerB.Keys.{pending_zset_member, pending_hash, is_colon, split_colons}

abbrev has_colon : String → Bool
has_colon [] = false
has_colon (c ∷ s) = is_colon c || has_colon s

has_colon-digits :
    (fuel n : ℕ) (out : String) → has_colon out ≡ false → has_colon (digits fuel n out) ≡ false
unfolding digits
has_colon-digits zero n out h = h
has_colon-digits (suc fuel) n out h =
    ground (arith, is_digit-digit (n % 10), has_colon-digits fuel (n / 10) (digit (n % 10) ∷ out))

has_colon-show_int : (n : ℤ) → has_colon (show_int n) ≡ false
unfolding show_int show_nat
has_colon-show_int (pos n) = has_colon-digits _ n "" refl
has_colon-show_int (negsuc n) = has_colon-digits _ (suc n) "" refl

has_colon_parts :
    (c : Char) (s : String)
    → has_colon (c ∷ s) ≡ false
    → (is_colon c ≡ false) × (has_colon s ≡ false)
has_colon_parts c s h = ground arith

split_one : (s : String) → has_colon s ≡ false → split_colons s ≡ List.◌∷◌ s List.[]
unfolding split_colons
split_one [] h = refl
split_one (c ∷ s) h = let (here, rest) = has_colon_parts c s h in rw (here, split_one s rest) refl

split_two :
    (s t : String)
    → has_colon s ≡ false
    → split_colons (s ++ ":" ++ t) ≡ List.◌∷◌ s (split_colons t)
unfolding split_colons
split_two [] t h = rw (nil-append (":" ++ t), cons-append ":" [] t, nil-append t) refl
split_two (c ∷ s) t h =
    let (here, rest) = has_colon_parts c s h in simp (text_laws, here, split_two s t rest) refl

-- A member is taken apart into the two texts that it was made of.
pub split-pending_zset_member :
    (u t : ℤ)
    → split_colons (pending_zset_member u t) ≡ List.◌∷◌ (show_int u) (List.◌∷◌ (show_int t) List.[])
split-pending_zset_member u t =
    split_two (show_int u) (show_int t) (has_colon-show_int u)
    ∙ ap (List.◌∷◌ (show_int u)) (split_one (show_int t) (has_colon-show_int t))

pub show_int_inj : (a b : ℤ) → show_int a ≡ show_int b → a ≡ b
show_int_inj a b h =
    let numbers : some a ≡ some b =
      sym (read_long-show_int a) ∙ ap read_long h ∙ read_long-show_int b in
    cc numbers

pub member_inj :
    (u t u' t' : ℤ) → pending_zset_member u t ≡ pending_zset_member u' t' → (u ≡ u') × (t ≡ t')
member_inj u t u' t' h =
    let parts =
      sym (split-pending_zset_member u t) ∙ ap split_colons h ∙ split-pending_zset_member u' t' in
    (show_int_inj u u' (cc parts), show_int_inj t t' (cc parts))

-- A text for a pair that tells pairs apart.
same_text :
    (text : ℤ → ℤ → String)
    → ((u t u' t' : ℤ) → text u t ≡ text u' t' → (u ≡ u') × (t ≡ t'))
    → (u t u' t' : ℤ) → (text u t == text u' t') ≡ (u == u' && t == t')
same_text text inj u t u' t' = elim (Bool-cases (text u t == text u' t')) [
  | inl same ↦
      let (users, types) = inj u t u' t' (string_eq.eq_of_same _ _ same) in
      same ∙ sym (rw (users, types, ==_refl u', ==_refl t') refl)
  | inr other ↦ elim (Bool-cases (u == u' && t == t')) [
    | inl same ↦
        let (users, types) = (and-eq-true_iff _ _).0 same in
        let texts =
          ap (λ x. text x t) (int_eq.eq_of_same u u' users)
          ∙ ap (text u') (int_eq.eq_of_same t t' types) in
        absurd (cc (other, ap (λ x. text u t == x) (sym texts), ==_refl (text u t)))
    | inr f ↦ other ∙ sym f
  ]
]

-- Two members are equal exactly if their users and coupon types are, and so are two keys.
pub same_member :
    (u t u' t' : ℤ) → (pending_zset_member u t == pending_zset_member u' t') ≡ (u == u' && t == t')
same_member = same_text pending_zset_member member_inj

pub same_hash : (u t u' t' : ℤ) → (pending_hash u t == pending_hash u' t') ≡ (u == u' && t == t')
same_hash =
    same_text pending_hash
      λ u t u' t' h. member_inj u t u' t' (append_cancel_left "issue:pending:" _ _ h)
