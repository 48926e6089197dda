-- ===== src/Common/Text.antt =====
-- The number rendering of JavaScript template literals, and the other text operations that the
-- messages, keys and payloads are built with.
use Prim.Native.Char.{Char, code}
use Prim.Native.String.{char_at, [], ◌∷◌, ◌++◌}
use text.Mathlib.TextLemmas.{nil-append, cons-append, append_assoc}
use coupon_nestjs.Prelude.{
  ℕ, zero, suc, ◌+◌, ◌/◌, ◌%◌, String, Bool, true, ◌&&◌, ◌||◌, List, ltb, leb, ℤ, pos, negsuc, ◌==◌,
  nat_eq, if◌then◌else◌,
}

-- Texts that are put together, one character after another.
pub ruleset text_laws = (nil-append, cons-append, append_assoc)

abbrev pub empty_text : String
empty_text = ""

infixr 65 ◌<+>◌
abbrev pub ◌<+>◌ : String → String → String
s <+> t = s ++ t

-- Each round writes the last digit in front of those that are written.
unfoldable pub digits : ℕ → ℕ → String → String
digits zero n out = out
digits (suc fuel) n out =
    let longer = char_at "0123456789" (n % 10) ∷ out in
    let rest = digits fuel (n / 10) longer in if ltb n 10 then longer else rest

-- `String(n)`; a number has no more digits than it counts, and zero has one.
unfoldable pub show_nat : ℕ → String
unfolding digits
show_nat n = digits (n + 1) n ""

unfoldable pub show_int : ℤ → String
unfolding show_nat
show_int (pos n) = show_nat n
show_int (negsuc n) = "-" ∷ show_nat (suc n)

-- `ms.join(', ')`
unfoldable pub join_comma : List String → String
join_comma List.[] = ""
join_comma (List.◌∷◌ m List.[]) = m
join_comma (List.◌∷◌ m ms) = m <+> ", " <+> join_comma ms

-- White space and line ends of ECMAScript, which `trim` takes off.
abbrev pub is_space : Char → Bool
is_space c =
    let n = code c in
    (leb 9 n && leb n 13)
    || n == 0x20
    || n == 0xa0
    || n == 0x1680
    || (leb 0x2000 n && leb n 0x200a)
    || n == 0x2028
    || n == 0x2029
    || n == 0x202f
    || n == 0x205f
    || n == 0x3000
    || n == 0xfeff

-- `s.trim() === ''`
unfoldable pub is_blank : String → Bool
is_blank [] = true
is_blank (c ∷ s) = is_space c && is_blank s

-- `s.substring(0, n)`, which counts UTF-16 units; the texts that it is used on are ASCII.
unfoldable pub prefix : ℕ → String → String
prefix zero s = []
prefix (suc n) [] = []
prefix (suc n) (c ∷ s) = c ∷ prefix n s
