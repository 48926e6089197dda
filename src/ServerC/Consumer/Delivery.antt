-- ===== src/ServerC/Consumer/Delivery.antt =====
-- What the attempts of a delivery come to.
use coupon_nestjs.Prelude.{
  ℕ, zero, suc, ◌≡◌, ◌<◌, refl, ap, ◌∙◌, ◌⊎◌, inl, inr, true, Option, none, some, String, arith,
}
use coupon_nestjs.Common.Payloads.{
  CouponIssueRequestPayload, RawIssueRequest, CheckedRequest, typed, mistyped,
}
use coupon_nestjs.Common.Cache.{Redis}
use coupon_nestjs.Common.Errors.{Exception}
use coupon_nestjs.Effect.{Result, ok, thrown}
use coupon_nestjs.ServerC.Engine.{Engine}
use coupon_nestjs.ServerC.World.{World}
use coupon_nestjs.ServerC.Issue.{Moment, process}
use coupon_nestjs.ServerC.Issue.Process.{Processed, decided, repeated, failed, process_lem}
use coupon_nestjs.ServerC.Issue.Redelivery.{is_served, Processed-is_served}
use coupon_nestjs.ServerC.Consumer.{unless_ok, parse, attempt_delivery, deliver}

eq_or_lt : (j n : ℕ) → j < suc n → (j ≡ n) ⊎ (j < n)
eq_or_lt j n small = ground arith

-- A delivery that threw has changed nothing.
Processed-thrown :
    (request : CouponIssueRequestPayload) (at : Moment) (w w' : World) (e : Exception)
    → Processed request at w (thrown e, w')
    → w' ≡ w
Processed-thrown request at w w' e (decided flag db' d ran x logs kept quiet) = absurd (cc ran)
Processed-thrown request at w w' e (repeated held ran) = absurd (cc ran)
Processed-thrown request at w w' e (failed x why other ran) = cc ran

module _ (em : Engine) (redis : Redis) (ttl max_delivery_attempts : ℕ)
    (json_parse : String → Result RawIssueRequest) where
  -- The attempt at the k-th moment throws, and changes nothing.
  abbrev pub Fails : CouponIssueRequestPayload → (ℕ → Moment) → World → ℕ → Type 0
  Fails payload moments w k =
      (e : Exception) × (process payload (moments k) em redis ttl w ≡ (thrown e, w))

  -- What the attempts come to that are left, whose moments are counted down.
  pub data Attempts (payload : CouponIssueRequestPayload) (moments : ℕ → Moment) (attempts : ℕ)
      (w w' : World) : Type 0 where
    -- An attempt returns, after all before it have failed.
    settled :
        (k : ℕ)
        → k < attempts
        → process payload (moments k) em redis ttl w ≡ (ok tt, w')
        → is_served payload w'.db ≡ true
        → ((j : ℕ) → k < j → j < attempts → Fails payload moments w j)
        → Attempts payload moments attempts w w'
    gave_up :
        ((j : ℕ) → j < attempts → Fails payload moments w j)
        → w' ≡ w
        → Attempts payload moments attempts w w'

  -- The first of the attempts that are left has failed.
  Attempts-suc :
      (payload : CouponIssueRequestPayload) (moments : ℕ → Moment) (attempts : ℕ) (w w' : World)
      → Fails payload moments w attempts
      → Attempts payload moments attempts w w'
      → Attempts payload moments (suc attempts) w w'
  Attempts-suc payload moments attempts w w' fails (settled k below ran served before) =
      settled k (omega arith) ran served λ j above small. elim (eq_or_lt j attempts small) [
        | inl last ↦ rw last fails
        | inr earlier ↦ before j above earlier
      ]
  Attempts-suc payload moments attempts w w' fails (gave_up before same) =
      gave_up
        (λ j small. elim (eq_or_lt j attempts small) [
          | inl last ↦ rw last fails
          | inr earlier ↦ before j earlier
        ])
        same

  attempt_delivery-Attempts :
      (payload : CouponIssueRequestPayload) (moments : ℕ → Moment) (attempts : ℕ) (w : World)
      → Attempts payload moments attempts w (
          attempt_delivery json_parse em redis ttl max_delivery_attempts payload moments attempts w)
  unfolding attempt_delivery
  attempt_delivery-Attempts payload moments zero w = gave_up (λ j small. absurd (omega arith)) refl
  attempt_delivery-Attempts payload moments (suc attempts) w =
      go (process payload (moments attempts) em redis ttl w) refl
        (process_lem payload (moments attempts) em redis ttl w)
        (attempt_delivery-Attempts payload moments attempts w)
    where
      go :
          (out : Result (Unit {0}) × World)
          → process payload (moments attempts) em redis ttl w ≡ out
          → Processed payload
              (moments attempts)
              w
              (process payload (moments attempts) em redis ttl w)
          → Attempts payload moments attempts w (
              attempt_delivery json_parse em redis ttl max_delivery_attempts payload moments
                attempts w)
          → Attempts payload moments (suc attempts) w (
              unless_ok
                (attempt_delivery json_parse em redis ttl max_delivery_attempts payload moments
                  attempts)
                out)
      go (ok _, x) ran p rest =
          settled attempts (omega arith) ran
            (Processed-is_served payload (moments attempts) w (ok tt, x) (rw ran at p) refl)
            (λ j above small. absurd (omega arith))
      go (thrown e, x) ran p rest =
          let same = Processed-thrown payload (moments attempts) w x e (rw ran at p) in
          rw same
            (Attempts-suc payload moments attempts w _ (e, ran ∙ ap (λ y. (thrown e, y)) same) rest)

  module _ (deliver_mistyped : RawIssueRequest → (ℕ → Moment) → World → World) where
    pub data Delivers (value : Option String) (moments : ℕ → Moment) (w w' : World) : Type 0 where
      skipped : parse json_parse value ≡ none → w' ≡ w → Delivers value moments w w'
      attempted :
          (payload : CouponIssueRequestPayload)
          → parse json_parse value ≡ some (typed payload)
          → Attempts payload moments max_delivery_attempts w w'
          → Delivers value moments w w'
      passed_on :
          (raw : RawIssueRequest)
          → parse json_parse value ≡ some (mistyped raw)
          → w' ≡ deliver_mistyped raw moments w
          → Delivers value moments w w'

    -- Every delivery of a message ends. It skips a malformed one. For a request it leaves what the first
    -- of at most `max_delivery_attempts` attempts that returns leaves, in which the user has a row for
    -- the coupon type; if all these attempts throw, everything is as it was. (A message with a value of
    -- another kind that passes the check is left to the parameter.)
    pub deliver_lem :
        (value : Option String) (moments : ℕ → Moment) (w : World)
        → Delivers value moments w
            (deliver json_parse em redis ttl max_delivery_attempts deliver_mistyped value moments w)
    unfolding deliver
    deliver_lem value moments w = go (parse json_parse value) refl
      where
        go :
            (parsed : Option CheckedRequest)
            → parse json_parse value ≡ parsed
            → Delivers value moments w (
                deliver json_parse em redis ttl max_delivery_attempts deliver_mistyped value moments
                  w)
        go none e = rw e (skipped e refl)
        go (some (typed payload)) e = rw e (
            attempted payload e (attempt_delivery-Attempts payload moments max_delivery_attempts w))
        go (some (mistyped raw)) e = rw e (passed_on raw e refl)
