-- ===== src/Common/Consuming/Backoff.antt =====
-- The loop that starts a consumer ends, and sleeps for bounded times.
use coupon_nestjs.Prelude.{
  ℕ, zero, suc, ◌+◌, ◌*◌, ◌≡◌, ◌≤◌, ◌<◌, refl, ◌⊎◌, inl, inr, Option, true, false, some, List, [],
  ◌∷◌, All, length, Bool-cases, arith,
}
use coupon_nestjs.Common.Consuming.{
  Started, consuming, stopped, Starts, max_backoff_ms, next_backoff, slept, start_with_retry,
}

-- A sleep is twice the last one, or the limit if that is less.
abbrev pub Doubles : ℕ → ℕ → Type 0
Doubles last sleep =
    ((sleep ≡ last * 2) × (last * 2 ≤ max_backoff_ms))
    ⊎ ((sleep ≡ max_backoff_ms) × (max_backoff_ms ≤ last * 2))

abbrev pub GoesOn : ℕ → List ℕ → Type 0
GoesOn last [] = Unit
GoesOn last (sleep ∷ sleeps) = Doubles last sleep × GoesOn sleep sleeps

-- The sleeps begin with the first backoff.
abbrev pub Grows : ℕ → List ℕ → Type 0
Grows backoff_ms [] = Unit
Grows backoff_ms (sleep ∷ sleeps) = (sleep ≡ backoff_ms) × GoesOn sleep sleeps

next_backoff-Doubles : (b : ℕ) → Doubles b (next_backoff b)
next_backoff-Doubles b = ground arith

Grows-GoesOn : (b : ℕ) (sleeps : List ℕ) → Grows (next_backoff b) sleeps → GoesOn b sleeps
Grows-GoesOn b [] g = tt
Grows-GoesOn b (sleep ∷ sleeps) g = (rw (← g.0) at (next_backoff-Doubles b), g.1)

-- The j-th attempt succeeds, or the consumer is stopped around it.
abbrev pub Ends : Starts → ℕ → Type 0
Ends s j = (s.stopped_before j ≡ true) ⊎ ((s.succeeds j ≡ true) ⊎ (s.stopped_after j ≡ true))

next_backoff-le : (b : ℕ) → next_backoff b ≤ max_backoff_ms
next_backoff-le b = ground arith

add_zero : (k : ℕ) → k + 0 ≡ k
add_zero k = omega arith

add_suc : (k m : ℕ) → k + suc m ≡ suc k + m
add_suc k m = omega arith

-- The j-th attempt fails, and the consumer is not stopped around it.
abbrev pub Fails : Starts → ℕ → Type 0
Fails s j = (s.stopped_before j ≡ false) × (s.succeeds j ≡ false) × (s.stopped_after j ≡ false)

-- How the j-th attempt ends the loop: it consumes if the attempt succeeds.
abbrev pub Decides : Starts → ℕ → Started → Type 0
Decides s j consuming = (s.stopped_before j ≡ false) × (s.succeeds j ≡ true)
Decides s j stopped =
    (s.stopped_before j ≡ true)
    ⊎ ((s.stopped_before j ≡ false) × (s.succeeds j ≡ false) × (s.stopped_after j ≡ true))

-- How the loop ends that begins with the k-th attempt: there is one sleep for each attempt that failed,
-- and the next one ends it.
pub record Settles (s : Starts) (m k backoff_ms : ℕ) (out : Option (Started × List ℕ))
    : Type 0 where
  pub outcome : Started
  pub sleeps : List ℕ
  pub returns : out ≡ some (outcome, sleeps)
  pub few : length sleeps ≤ m
  pub failed : (j : ℕ) → j < length sleeps → Fails s (k + j)
  pub decided : Decides s (k + length sleeps) outcome
  pub grows : Grows backoff_ms sleeps
  pub bounded : All (λ sleep. sleep ≤ max_backoff_ms) sleeps

at_once :
    (s : Starts) (m k b : ℕ) (outcome : Started)
    → Decides s k outcome
    → Settles s m k b (some (outcome, []))
at_once s m k b outcome decided = record {
  outcome = outcome;
  sleeps = [];
  returns = refl;
  few = omega arith;
  failed = λ j below. absurd (omega arith);
  decided = rw (add_zero k) decided;
  grows = tt;
  bounded = tt;
}

module _ (s : Starts) where
  -- One attempt that does not end the loop, or one that does.
  attempt-Settles :
      (fuel m k b : ℕ)
      → (Ends s k
          ⊎ (Fails s k
              → Settles s m k b (slept b (start_with_retry s fuel (suc k) (next_backoff b)))))
      → Settles s m k b (start_with_retry s (suc fuel) k b)
  unfolding start_with_retry
  attempt-Settles fuel m k b later = elim (Bool-cases (s.stopped_before k)) [
    | inl before ↦ rw before (at_once s m k b stopped (inl before))
    | inr runs ↦ elim (Bool-cases (s.succeeds k)) [
      | inl works ↦ rw (runs, works) (at_once s m k b consuming (runs, works))
      | inr fails ↦ elim (Bool-cases (s.stopped_after k)) [
        | inl after ↦ rw (runs, fails, after) (at_once s m k b stopped (inr (runs, fails, after)))
        | inr goes_on ↦
            rw (runs, fails, goes_on)
              (elim later [
                | inl (inl h) ↦ absurd (cc (h, runs))
                | inl (inr (inl h)) ↦ absurd (cc (h, fails))
                | inl (inr (inr h)) ↦ absurd (cc (h, goes_on))
                | inr settled ↦ settled (runs, fails, goes_on)
              ])
      ]
    ]
  ]

  from_first :
      {k n : ℕ}
      → Fails s k
      → ((j : ℕ) → j < n → Fails s (suc k + j))
      → (j : ℕ) → j < suc n
      → Fails s (k + j)
  from_first {k} fails later zero below = rw (add_zero k) fails
  from_first {k} fails later (suc j) below = rw (add_suc k j) (later j (omega arith))

  slept-Settles :
      (m k b : ℕ) (out : Option (Started × List ℕ))
      → b ≤ max_backoff_ms
      → Settles s m (suc k) (next_backoff b) out
      → Fails s k
      → Settles s (suc m) k b (slept b out)
  slept-Settles m k b out small r fails = record {
    outcome = r.outcome;
    sleeps = b ∷ r.sleeps;
    returns = rw r.returns refl;
    few = omega (arith, r.few);
    failed = from_first fails r.failed;
    decided = rw (add_suc k (length r.sleeps)) r.decided;
    grows = (refl, Grows-GoesOn b r.sleeps r.grows);
    bounded = (small, r.bounded);
  }

  -- If the m-th attempt from here on succeeds, or the consumer is stopped around it, the loop ends
  -- after at most m sleeps. There is one sleep for each attempt from here on that failed while the
  -- consumer was not stopped, and with the next attempt it consumes, if that succeeds, or it has been
  -- stopped around it. Each sleep is twice the last one, and never longer than the limit. One unit of fuel for each of these attempts is enough.
  pub start_with_retry_lem :
      (m fuel k backoff_ms : ℕ)
      → Ends s (k + m)
      → m < fuel
      → backoff_ms ≤ max_backoff_ms
      → Settles s m k backoff_ms (start_with_retry s fuel k backoff_ms)
  start_with_retry_lem m zero k b ends enough small = absurd (omega arith)
  start_with_retry_lem zero (suc fuel) k b ends enough small =
      attempt-Settles fuel 0 k b (inl (rw (add_zero k) at ends))
  start_with_retry_lem (suc m) (suc fuel) k b ends enough small = attempt-Settles fuel (suc m) k b (
      inr (
        slept-Settles m k b (start_with_retry s fuel (suc k) (next_backoff b)) small (
          start_with_retry_lem m fuel (suc k) (next_backoff b) (rw (add_suc k m) at ends)
            (omega arith) (next_backoff-le b))))
