-- ===== src/Kafka/Consumer/Retry.antt =====
-- How often processWithRetry of internal/kafka/consumer.go calls a handler, and with what end.
use mcp_server_dynamodb_sage.Prelude.{
  ℕ, zero, suc, ◌+◌, ◌≤◌, String, ◌≡◌, refl, Bool, true, false, Option, none, some, List, [], ◌∷◌,
  any, All, length, arith, str_append, Option-cases, inl, inr,
}
use mcp_server_dynamodb_sage.Prelude.Int.{ℤ, pos, negsuc, pos_part, leb_ℤ, ◌≤ℤ◌}
use mcp_server_dynamodb_sage.Kafka.Consumer.{
  Retries, Retried, out_of_fuel, ended, slept, delay, retry_from, process_with_retry,
}

abbrev pub is_none : Option String → Bool
is_none none = true
is_none (some _) = false

-- The attempts k, k + 1, …, of which there are n.
abbrev pub attempts : ℕ → ℕ → List ℕ
attempts k zero = []
attempts k (suc n) = k ∷ attempts (suc k) n

-- The loop has ended, without an error exactly when `well` says so, after at most `n` delays, none
-- of them above `most`.
abbrev pub EndsWithin : Bool → ℕ → ℤ → Retried → Type 0
EndsWithin well n most out_of_fuel = ⊥
EndsWithin well n most (ended e ds) = (is_none e ≡ well) × (length ds ≤ n) × All (λ d. d ≤ℤ most) ds

slept-EndsWithin :
    (well : Bool) (n : ℕ) (most d : ℤ) (r : Retried)
    → d ≤ℤ most
    → EndsWithin well n most r
    → EndsWithin well (suc n) most (slept d r)
slept-EndsWithin well n most d out_of_fuel h ends = ends
slept-EndsWithin well n most d (ended e ds) h ends = (ends.0, omega (arith, ends.1), (h, ends.2))

last_try : (z : ℤ) (k : ℕ) → k + 0 ≡ pos_part z → leb_ℤ z (pos k) ≡ true
last_try z k h = ground arith

more_tries : (z : ℤ) (k d : ℕ) → k + suc d ≡ pos_part z → leb_ℤ z (pos k) ≡ false
more_tries (pos n) k d h = ground arith
more_tries (negsuc n) k d h = absurd (omega (arith, h))

module _ (backoff : ℕ → ℤ) (c : Retries) (attempt : ℕ → Option String) where
  abbrev pub works : ℕ → Bool
  works i = is_none (attempt i)

  delay_le : (k : ℕ) → delay backoff c k ≤ℤ c.max_backoff
  delay_le k = ground arith

  -- The three ways in which a round of the loop goes.
  round_works :
      (fuel k : ℕ) → attempt k ≡ none → retry_from backoff c (suc fuel) attempt k ≡ ended none []
  unfolding retry_from
  round_works fuel k e = ground arith

  last_round :
      (fuel k : ℕ) (message : String)
      → attempt k ≡ some message
      → leb_ℤ c.max_retries (pos k) ≡ true
      → retry_from backoff c (suc fuel) attempt k
        ≡ ended (some (str_append "max retries reached: " message)) []
  unfolding retry_from
  last_round fuel k message e h = ground arith

  next_round :
      (fuel k : ℕ) (message : String)
      → attempt k ≡ some message
      → leb_ℤ c.max_retries (pos k) ≡ false
      → retry_from backoff c (suc fuel) attempt k
        ≡ slept (delay backoff c k) (retry_from backoff c fuel attempt (suc k))
  unfolding retry_from
  next_round fuel k message e h = ground arith

  retry_from-EndsWithin :
      (d k : ℕ)
      → k + d ≡ pos_part c.max_retries
      → EndsWithin
          (any works (attempts k (suc d)))
          d
          c.max_backoff
          (retry_from backoff c (suc d) attempt k)
  retry_from-EndsWithin zero k h = elim (Option-cases (attempt k)) [
    | inl e ↦ rw (round_works 0 k e, e) (refl, omega arith, tt)
    | inr (message, e) ↦
        rw (last_round 0 k message e (last_try c.max_retries k h), e) (refl, omega arith, tt)
  ]
  retry_from-EndsWithin (suc d) k h = elim (Option-cases (attempt k)) [
    | inl e ↦ rw (round_works (suc d) k e, e) (refl, omega arith, tt)
    | inr (message, e) ↦
        rw (next_round (suc d) k message e (more_tries c.max_retries k d h), e)
          (slept-EndsWithin _ d c.max_backoff (delay backoff c k) _ (delay_le k)
            (retry_from-EndsWithin d (suc k) (omega (arith, h))))
  ]

  -- Whatever the handler does and whatever the delays are computed as, processWithRetry ends. It
  -- ends without an error exactly when one of the first attempts works, as many as MaxRetries and
  -- one more (one, if MaxRetries is negative); it sleeps at most MaxRetries times, never for longer
  -- than MaxBackoff.
  pub process_with_retry-EndsWithin :
      EndsWithin
        (any works (attempts 0 (suc (pos_part c.max_retries))))
        (pos_part c.max_retries)
        c.max_backoff
        (process_with_retry backoff c attempt)
  unfolding process_with_retry
  process_with_retry-EndsWithin = retry_from-EndsWithin (pos_part c.max_retries) 0 (omega arith)
