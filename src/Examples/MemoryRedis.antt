-- ===== src/Examples/MemoryRedis.antt =====
-- The Redis of server-b, filled by functions that never fail but where a field is no number.
use mathlib.Core.List.{Memᴰ}
use mathlib.Core.Bool.{and-eq-true_iff}
use coupon_nestjs.Prelude.{
  ℕ, ℤ, pos, negsuc, zero, suc, ◌+◌, ◌≡◌, ◌≤◌, refl, sym, ap, ◌∙◌, inl, inr, String, Bool, true,
  false, ◌&&◌, Option, none, some, is_some, List, [], ◌∷◌, All, length, leb, take, length-take-le,
  count_if, lookup, insert, ◌==◌, nat_eq, string_eq, ==_refl, if◌then◌else◌, arith, Bool-cases,
}
use coupon_nestjs.Common.Errors.{plain}
use coupon_nestjs.Common.Text.{show_nat}
use coupon_nestjs.Common.Requests.{read_long}
use coupon_nestjs.Effect.{Result, ok, thrown}
use coupon_nestjs.ServerB.Redis.{
  Keyspace, Redis, Applies, Reads, is_due, with_hash, set_fields, if_unset, expiring, scored,
  unscored,
}
use coupon_nestjs.ServerB.RedisStore.Search.{read_long-show_nat}

abbrev has_score : Option ℕ → ℕ → Bool
has_score none n = false
has_score (some score) n = score == n

-- The members with a due score, which is the one that a lookup finds.
abbrev due_of : ℕ → List (String × ℕ) → List (String × ℕ) → List String
due_of cutoff all [] = []
due_of cutoff all ((m, score) ∷ rest) =
    let others = due_of cutoff all rest in
    if leb score cutoff && has_score (lookup m all) score then m ∷ others else others

has_score_lem : (o : Option ℕ) (n : ℕ) → has_score o n ≡ true → o ≡ some n
has_score_lem none n h = absurd (cc h)
has_score_lem (some score) n h = ap some (nat_eq.eq_of_same score n h)

pub due_of-due :
    (cutoff : ℕ) (all xs : List (String × ℕ))
    → All (λ m. (score : ℕ) × (lookup m all ≡ some score) × (score ≤ cutoff)) (due_of cutoff all xs)
due_of-due cutoff all [] = tt
due_of-due cutoff all ((m, score) ∷ xs) =
    elim (Bool-cases (leb score cutoff && has_score (lookup m all) score)) [
      | inl taken ↦
          let (early, same) =
            (and-eq-true_iff (leb score cutoff) (has_score (lookup m all) score)).0 taken in
          rw taken (
            (score, has_score_lem (lookup m all) score same, ground arith),
            due_of-due cutoff all xs,
          )
      | inr missed ↦ rw missed (due_of-due cutoff all xs)
    ]

pub length-due_of :
    (cutoff : ℕ) (all xs : List (String × ℕ))
    → length (due_of cutoff all xs) ≤ count_if (is_due cutoff) xs
length-due_of cutoff all [] = omega arith
length-due_of cutoff all ((m, score) ∷ xs) =
    elim (Bool-cases (leb score cutoff && has_score (lookup m all) score)) [
      | inl taken ↦
          let (early, same) =
            (and-eq-true_iff (leb score cutoff) (has_score (lookup m all) score)).0 taken in
          rw (taken, early) (omega (arith, length-due_of cutoff all xs))
      | inr missed ↦ rw missed (omega (arith, length-due_of cutoff all xs))
    ]

pub Mem-due_of :
    (cutoff : ℕ) (all xs : List (String × ℕ)) (m : String) (score : ℕ)
    → lookup m all ≡ some score
    → score ≤ cutoff
    → lookup m xs ≡ some score
    → Memᴰ m (due_of cutoff all xs)
Mem-due_of cutoff all [] m score there early here = absurd (cc here)
Mem-due_of cutoff all ((k, v) ∷ xs) m score there early here = elim (Bool-cases (k == m)) [
  | inl same ↦
      let key : k ≡ m = string_eq.eq_of_same k m same in
      let value : v ≡ score = cc (rw same at here) in
      let found : has_score (lookup k all) v ≡ true =
        rw (ap (λ x. lookup x all) key ∙ there, value) (==_refl score) in
      let in_time : leb v cutoff ≡ true = ground (arith, value) in
      rw ((and-eq-true_iff _ _).1 (in_time, found)) (Memᴰ.head (sym key))
  | inr other ↦
      let later = Mem-due_of cutoff all xs m score there early (rw other at here) in
      elim (Bool-cases (leb v cutoff && has_score (lookup k all) v)) [
        | inl taken ↦ rw taken (Memᴰ.tail later)
        | inr missed ↦ rw missed later
      ]
]

pub Mem-take :
    {A : Type 0} (n : ℕ) (xs : List A) {a : A} → length xs ≤ n → Memᴰ a xs → Memᴰ a (take n xs)
Mem-take n [] h m = elim m [ ]
Mem-take zero (x ∷ xs) h m = absurd (omega arith)
Mem-take (suc n) (x ∷ xs) h (Memᴰ.head e) = Memᴰ.head e
Mem-take (suc n) (x ∷ xs) h (Memᴰ.tail m) = Memᴰ.tail (Mem-take n xs (omega arith) m)

pub All-take : {A : Type 0} (P : A → Type 0) (n : ℕ) (xs : List A) → All P xs → All P (take n xs)
All-take P zero xs all = tt
All-take P (suc n) [] all = tt
All-take P (suc n) (x ∷ xs) all = (all.0, All-take P n xs all.1)

abbrev incremented : Option ℤ → String → String → ℕ → Keyspace → Result ℕ × Keyspace
incremented (some (pos n)) key field by ks =
    (ok (n + by), set_fields key ((field, show_nat (n + by)) ∷ []) ks)
incremented (some (negsuc n)) key field by ks = (thrown (plain "a negative number"), ks)
incremented none key field by ks = (thrown (plain "ERR hash value is not an integer"), ks)

abbrev number_of_field : Option String → Option ℤ
number_of_field none = some (pos 0)
number_of_field (some text) = read_long text

abbrev pub memory_hashes : Redis
memory_hashes = record {
  hsetnx = λ key field value ks.
      let old = lookup field (ks.hashes key) in
      (
        ok (if is_some old then 0 else 1),
        with_hash key (if_unset old (insert field value (ks.hashes key)) (ks.hashes key)) ks,
      );
  hsetnx_lem = λ key field value ks. Applies.applied refl;
  hset = λ key fields ks. (ok tt, set_fields key fields ks);
  hset_lem = λ key fields ks. Applies.applied refl;
  hincrby = λ key field by ks.
      incremented (number_of_field (lookup field (ks.hashes key))) key field by ks;
  hincrby_lem = λ key field n by ks there. rw (there, read_long-show_nat n) (Applies.applied refl);
  hgetall = λ key ks. (ok (ks.hashes key), ks);
  hgetall_lem = λ key ks. Reads.read _ refl refl;
  expire = λ key ttl_seconds ks. (ok tt, expiring key (ks.hashes key) ks);
  expire_lem = λ key ttl_seconds ks. Applies.applied refl;
  zadd = λ score member ks. (ok tt, scored member score ks);
  zadd_lem = λ score member ks. Applies.applied refl;
  zrem = λ member ks. (ok tt, unscored member ks);
  zrem_lem = λ member ks. Applies.applied refl;
  zrangebyscore = λ cutoff limit ks. (ok (take limit (due_of cutoff ks.zset ks.zset)), ks);
  zrangebyscore_lem = λ cutoff limit ks.
      Reads.read _
        (record {
          due = All-take _ limit _ (due_of-due cutoff ks.zset ks.zset);
          limited = length-take-le limit _;
          complete = λ few m score there early.
              Mem-take limit _ (omega (arith, few, length-due_of cutoff ks.zset ks.zset))
                (Mem-due_of cutoff ks.zset ks.zset m score there early there);
        })
        refl;
}
