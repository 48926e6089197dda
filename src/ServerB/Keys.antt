-- ===== src/ServerB/Keys.antt =====
-- apps/server-b/src/infrastructure/redis/redis-keys.ts, and `split(':')`, which takes the members of
-- the sorted set apart.
pub mod Apart
use Prim.Native.Char.{Char, code}
use Prim.Native.String.{[], ◌∷◌}
use coupon_nestjs.Prelude.{ℤ, String, Bool, List, ◌==◌, nat_eq, if◌then◌else◌}
use coupon_nestjs.Common.Text.{◌<+>◌, show_int}

abbrev pub pending_zset_member : ℤ → ℤ → String
pending_zset_member user_id coupon_type_id = show_int user_id <+> ":" <+> show_int coupon_type_id

abbrev pub pending_hash : ℤ → ℤ → String
pending_hash user_id coupon_type_id =
    "issue:pending:" <+> pending_zset_member user_id coupon_type_id

abbrev pub is_colon : Char → Bool
is_colon c = code c == 58

-- A character in front of the first part.
abbrev pub longer_first : Char → List String → List String
longer_first c List.[] = List.◌∷◌ (c ∷ []) List.[]
longer_first c (List.◌∷◌ part parts) = List.◌∷◌ (c ∷ part) parts

-- `s.split(':')`
unfoldable pub split_colons : String → List String
split_colons [] = List.◌∷◌ "" List.[]
split_colons (c ∷ s) =
    let rest = split_colons s in if is_colon c then List.◌∷◌ "" rest else longer_first c rest
