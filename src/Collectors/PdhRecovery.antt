-- ===== src/Collectors/PdhRecovery.antt =====
-- src/collectors/pdh_recovery.rs: when a performance counter query that failed is tried again.
use host_monitoring_client.Common.{
  ℕ, leb, suc, ◌≡◌, refl, ap, arith, ◌+◌, ◌-◌, ◌*◌, ◌^◌, ◌≤◌, min, Bool, true, false, Option, none,
  some, ltb, ◌==◌, if◌then◌else◌, List, [], ◌∷◌, ◌∙◌, length, ◌⊎◌, inl, inr, Bool-cases,
}
use native.Mathlib.Nat.{mul-le-mul_left, mul_assoc, one-le-pow, two-pow-succ}
use host_monitoring_client.Common.Text.{Text, codes}

-- A `Duration` in nanoseconds.
abbrev pub seconds : ℕ → ℕ
seconds n = n * 1000000000

abbrev pub pdh_retry_initial : ℕ
pdh_retry_initial = seconds 30

abbrev pub pdh_retry_max : ℕ
pdh_retry_max = seconds (15 * 60)

abbrev pub duration_max : ℕ
duration_max = seconds (2 ^ 64) - 1

-- `PDH_INVALID_HANDLE_STATUS` and `should_rebuild_pdh_query`.
unfoldable pub should_rebuild_pdh_query : ℕ → Bool
should_rebuild_pdh_query status = status == 3221228476

pub record RetryingPdhResource (T : Type 0) : Type 0 where
  pub value : Option T
  pub last_error : Option Text
  pub next_retry_at : Option ℕ
  pub retry_delay : ℕ
  pub ever_succeeded : Bool

-- What the caller gets, and what `init` gives.
pub data Init (T : Type 0) : Type 0 where
  ready : T → Init T
  broken : Text → Init T

-- What happens to the resource, in order: it is asked for, or it is found invalid.
pub data Event (T : Type 0) : Type 0 where
  asked : ℕ → Init T → Event T
  invalid : ℕ → Text → Event T

-- The answer, the state after it, and if `init` was called.
pub record Attempt (T : Type 0) : Type 0 where
  pub answer : Init T
  pub state : RetryingPdhResource T
  pub called : Bool

-- `Instant::checked_add`: the clock has a last instant.
abbrev checked_add : ℕ → ℕ → ℕ → Option ℕ
checked_add instant_max now delay =
    if ltb instant_max (now + delay) then none else some (now + delay)

abbrev waits : ℕ → Option ℕ → Bool
waits now none = false
waits now (some retry_at) = ltb now retry_at

abbrev last_problem : Option Text → Text
last_problem none = codes "PDH initialization is waiting for retry"
last_problem (some error) = error

min_scaled : (x m p : ℕ) → 1 ≤ p → min (min x m * p) m ≡ min (x * p) m
min_scaled x m p h =
    let a : m * 1 ≤ m * p = mul-le-mul_left m h in
    let b : x * 1 ≤ x * p = mul-le-mul_left x h in
    elim (Bool-cases (leb x m)) [
      | inl small ↦ let e : min x m ≡ x = ground arith in rw e
      | inr large ↦ let e : min x m ≡ m = ground arith in rw e (ground arith)
    ]

module _ {T : Type 0} (instant_max : ℕ) where
  unfoldable pub new : RetryingPdhResource T
  new = record {
    value = none;
    last_error = none;
    next_retry_at = none;
    retry_delay = pdh_retry_initial;
    ever_succeeded = false;
  }

  unfoldable pub record_failure : ℕ → Text → RetryingPdhResource T → RetryingPdhResource T
  record_failure now error s = record s {
    last_error = some error;
    next_retry_at = checked_add instant_max now s.retry_delay;
    retry_delay = min (min (s.retry_delay * 2) duration_max) pdh_retry_max;
  }

  abbrev pub initialized : ℕ → Init T → RetryingPdhResource T → Attempt T
  initialized now (ready value) s = record {
    answer = ready value;
    state = record {
      value = some value;
      last_error = none;
      next_retry_at = none;
      retry_delay = pdh_retry_initial;
      ever_succeeded = true;
    };
    called = true;
  }
  initialized now (broken error) s = record {
    answer = broken error;
    state = record_failure now error s;
    called = true;
  }

  abbrev attempt : ℕ → Init T → RetryingPdhResource T → Option T → Attempt T
  attempt now init s (some value) = record { answer = ready value; state = s; called = false }
  attempt now init s none =
      if waits now s.next_retry_at
      then record { answer = broken (last_problem s.last_error); state = s; called = false }
      else initialized now init s

  unfoldable pub get_or_try_init : ℕ → Init T → RetryingPdhResource T → Attempt T
  get_or_try_init now init s = attempt now init s s.value

  unfoldable pub invalidate : ℕ → Text → RetryingPdhResource T → RetryingPdhResource T
  invalidate now error s = record_failure now error (record s { value = none })

  abbrev step : Event T → RetryingPdhResource T → RetryingPdhResource T
  step (asked now init) s = Attempt.state (get_or_try_init now init s)
  step (invalid now error) s = invalidate now error s

  abbrev pub after : List (Event T) → RetryingPdhResource T → RetryingPdhResource T
  after [] s = s
  after (e ∷ es) s = after es (step e s)

  -- The delay stays within its bounds, and a resource that is there has no retry pending.
  abbrev pub Fit : RetryingPdhResource T → Type 0
  Fit s =
      (pdh_retry_initial ≤ s.retry_delay)
      × (s.retry_delay ≤ pdh_retry_max)
      × ((s.value ≡ none)
          ⊎ ((s.last_error ≡ none)
              × (s.next_retry_at ≡ none)
              × (s.retry_delay ≡ pdh_retry_initial)
              × (s.ever_succeeded ≡ true)))

  record_failure-Fit :
      (now : ℕ) (error : Text) (s : RetryingPdhResource T)
      → s.value ≡ none
      → pdh_retry_initial ≤ s.retry_delay
      → Fit (record_failure now error s)
  unfolding record_failure
  record_failure-Fit now error s gone h = (omega (arith, h), omega arith, inl gone)

  initialized-Fit :
      (now : ℕ) (init : Init T) (s : RetryingPdhResource T)
      → s.value ≡ none
      → Fit s
      → Fit (Attempt.state (initialized now init s))
  initialized-Fit now (ready value) s e h = (omega arith, omega arith, inr (refl, refl, refl, refl))
  initialized-Fit now (broken error) s e h = record_failure-Fit now error s e (h.0)

  attempt-Fit :
      (now : ℕ) (init : Init T) (s : RetryingPdhResource T) (v : Option T)
      → s.value ≡ v
      → Fit s
      → Fit (Attempt.state (attempt now init s v))
  attempt-Fit now init s (some value) e h = h
  attempt-Fit now init s none e h = elim (Bool-cases (waits now s.next_retry_at)) [
    | inl w ↦ rw w h
    | inr w ↦ rw w (initialized-Fit now init s e h)
  ]

  step-Fit : (e : Event T) (s : RetryingPdhResource T) → Fit s → Fit (step e s)
  unfolding get_or_try_init invalidate
  step-Fit (asked now init) s h = attempt-Fit now init s s.value refl h
  step-Fit (invalid now error) s h =
      record_failure-Fit now error (record s { value = none }) refl (h.0)

  after_from-Fit : (es : List (Event T)) (s : RetryingPdhResource T) → Fit s → Fit (after es s)
  after_from-Fit [] s h = h
  after_from-Fit (e ∷ es) s h = after_from-Fit es (step e s) (step-Fit e s h)

  -- However it is used, a new resource keeps its retry delay between 30 seconds and 15 minutes, and has no
  -- error and no pending retry while it is there.
  pub after-Fit : (es : List (Event T)) → Fit (after es new)
  unfolding new
  after-Fit es = after_from-Fit es new (omega arith, omega arith, inl refl)

  abbrev pub failures : List (ℕ × Text) → RetryingPdhResource T → RetryingPdhResource T
  failures [] s = s
  failures ((now, error) ∷ rest) s = failures rest (record_failure now error s)

  failures_from :
      (l : List (ℕ × Text)) (s : RetryingPdhResource T)
      → s.retry_delay ≤ pdh_retry_max
      → RetryingPdhResource.retry_delay (failures l s)
        ≡ min (s.retry_delay * 2 ^ length l) pdh_retry_max
  unfolding record_failure
  failures_from [] s h = omega (arith, h)
  failures_from ((now, error) ∷ rest) s h =
      let d = s.retry_delay in
      let delay : RetryingPdhResource.retry_delay (record_failure now error s)
          ≡ min (d * 2) pdh_retry_max =
        omega arith in
      let next = failures_from rest (record_failure now error s) (omega (arith, delay)) in
      let scaled =
        min_scaled (d * 2) pdh_retry_max (2 ^ length rest)
          (one-le-pow (length rest) 2 (omega arith)) in
      let power : d * 2 * 2 ^ length rest ≡ d * 2 ^ suc (length rest) =
        mul_assoc d 2 (2 ^ length rest)
        ∙ ap (λ t. d * t) (omega (arith, two-pow-succ (length rest))) in
      next
      ∙ ap (λ t. min (t * 2 ^ length rest) pdh_retry_max) delay
      ∙ scaled
      ∙ ap (λ t. min t pdh_retry_max) power

  -- From a delay of 30 seconds, the delay after failures in a row is doubled for each of them, and is at
  -- most 15 minutes.
  pub failures_delay :
      (l : List (ℕ × Text)) (s : RetryingPdhResource T)
      → s.retry_delay ≡ pdh_retry_initial
      → RetryingPdhResource.retry_delay (failures l s)
        ≡ min (pdh_retry_initial * 2 ^ length l) pdh_retry_max
  failures_delay l s h =
      failures_from l s (omega (arith, h)) ∙ ap (λ t. min (t * 2 ^ length l) pdh_retry_max) h

  -- After a failure, the resource is tried again exactly when the delay that then stood has passed: an
  -- earlier request gets the same error and changes nothing.
  pub get_or_try_init_after_failure :
      (s : RetryingPdhResource T) (now later : ℕ) (error : Text) (init : Init T)
      → s.value ≡ none
      → now + s.retry_delay ≤ instant_max
      → get_or_try_init later init (record_failure now error s) ≡ (
          if ltb later (now + s.retry_delay)
          then record { answer = broken error; state = record_failure now error s; called = false }
          else initialized later init (record_failure now error s))
  unfolding get_or_try_init record_failure
  get_or_try_init_after_failure s now later error init gone h =
      let clock : ltb instant_max (now + s.retry_delay) ≡ false = ground arith in rw (gone, clock)
