-- ===== src/Agent/Retry/Laws.antt =====
-- How often the operation is called, what is retried, and what comes back.
use roj.Base.{
  min, get_or, ℕ, zero, suc, ◌+◌, ◌-◌, ◌≤◌, ◌<◌, ◌≡◌, refl, sym, ap, ◌∙◌, ◌≢◌, ◌⊎◌, inl, inr, true,
  false, Option, none, some, List, [], ◌∷◌, arith, All, length, Result, ok, err, Bool-cases, dec_lt,
  leb, leb→le, subst,
}
use roj.Agent.Retry.{
  WithRetryOptions, Surroundings, Retried, Run, max_attempts, max_delay_ms, calculate_delay,
  attempt_cap, after_attempt, retry_loop, with_retry, LlmError, LlmErrorKind, RetryOptions,
  llm_retry_options, is_retryable_llm_error, with_llm_retry, timeout, is_retryable_kind,
  attempts_of_kind,
}

module _ {T E : Type 0} (o : WithRetryOptions E) (w : Surroundings T E) where
  -- An error after which the loop goes on: retryable, with an attempt left, after a bounded wait.
  pub record IsRetried (x : Retried E) : Type 0 where
    pub retryable : o.is_retryable x.error ≡ true
    pub below_cap : x.attempt < attempt_cap o w x.error
    pub delay : x.delay_ms ≤ max_delay_ms o w

  calculate_delay_le : (n : ℕ) (e : E) → calculate_delay o w n e ≤ max_delay_ms o w
  unfolding calculate_delay
  calculate_delay_le n e = omega arith

  after_attempt-IsRetried :
      (n : ℕ) (r : Result E T) (again : E → Run T E)
      → ((e : E) → All IsRetried (again e).retries)
      → All IsRetried (after_attempt o w n r again).retries
  after_attempt-IsRetried n (ok t) again h = tt
  after_attempt-IsRetried n (err e) again h = ground (arith, h e, calculate_delay_le (suc n) e)

  retry_loop-IsRetried :
      (left n : ℕ) (last : Option E) → All IsRetried (retry_loop o w left n last).retries
  unfolding retry_loop
  retry_loop-IsRetried zero n last = tt
  retry_loop-IsRetried (suc left) n last =
      let rest =
        after_attempt-IsRetried n (w.fn n) _ (λ e. retry_loop-IsRetried left (suc n) (some e)) in
      elim (Bool-cases (w.aborted_before n)) [ inl a ↦ rw a tt | inr a ↦ rw a rest ]

  -- The count of calls, from attempt `n`, with `left` attempts to go.
  record Counts (left n : ℕ) (run : Run T E) : Type 0 where
    few : run.calls ≤ n + left
    least : n + length run.retries ≤ run.calls
    most : run.calls ≤ n + length run.retries + 1

  after_attempt-Counts :
      (left n : ℕ) (r : Result E T) (again : E → Run T E)
      → ((e : E) → Counts left (suc n) (again e))
      → Counts (suc left) n (after_attempt o w n r again)
  after_attempt-Counts left n (ok t) again h = omega arith
  after_attempt-Counts left n (err e) again h = ground (arith, h e)

  retry_loop-Counts : (left n : ℕ) (last : Option E) → Counts left n (retry_loop o w left n last)
  unfolding retry_loop
  retry_loop-Counts zero n last = omega arith
  retry_loop-Counts (suc left) n last =
      let rest =
        after_attempt-Counts left n (w.fn n) _ (λ e. retry_loop-Counts left (suc n) (some e)) in
      elim (Bool-cases (w.aborted_before n)) [ inl a ↦ rw a (omega arith) | inr a ↦ rw a rest ]

  abbrev pub last_result : Result E T → Result (Option E) T
  last_result (ok t) = ok t
  last_result (err e) = err (some e)

  -- A result after which the loop goes on: an error, retryable, with an attempt left.
  pub record GoesOn (n : ℕ) : Type 0 where
    pub error : E
    pub failed : w.fn n ≡ err error
    pub retryable : o.is_retryable error ≡ true
    pub attempt_left : suc n < attempt_cap o w error

  -- A result that is final: a success, or an error that is not retryable or used the last attempt.
  pub data IsFinal (n : ℕ) : Type 0 where
    success : (t : T) → w.fn n ≡ ok t → IsFinal n
    exhausted : (e : E) → w.fn n ≡ err e → attempt_cap o w e ≤ suc n → IsFinal n
    hopeless : (e : E) → w.fn n ≡ err e → o.is_retryable e ≡ false → IsFinal n

  -- The run stops at the first final result, which is what it returns.
  record Ends (n : ℕ) (run : Run T E) : Type 0 where
    called : n < run.calls
    outcome : run.outcome ≡ last_result (w.fn (run.calls - 1))
    final : IsFinal (run.calls - 1)
    before : (k : ℕ) → n ≤ k → suc k < run.calls → GoesOn k

  stop-Ends :
      (n : ℕ) (run : Run T E)
      → run.calls ≡ suc n
      → run.outcome ≡ last_result (w.fn n)
      → IsFinal n
      → Ends n run
  stop-Ends n run c q f =
      let same : n ≡ run.calls - 1 = omega (arith, c) in
      record {
        called = omega (arith, c);
        outcome = q ∙ ap (λ k. last_result (w.fn k)) same;
        final = subst IsFinal same f;
        before = λ k low high. absurd (omega (arith, low, high, c));
      }

  log_retry-Ends :
      (n : ℕ) (run : Run T E) (x : Retried E)
      → GoesOn n
      → Ends (suc n) run
      → Ends n (record run { retries = x ∷ run.retries })
  log_retry-Ends n run x g h =
      let called = h.called in
      record {
        called = omega (arith, called);
        outcome = h.outcome;
        final = h.final;
        before = λ k low high. elim (dec_lt n k) [
          | yes l ↦ h.before k l high
          | no l ↦ let same : n ≡ k = omega (arith, l, low) in subst GoesOn same g
        ];
      }

  after_attempt-Ends :
      (n : ℕ) (r : Result E T) (again : E → Run T E)
      → w.fn n ≡ r
      → w.aborted_after n ≡ false
      → ((e : E) → leb (attempt_cap o w e) (suc n) ≡ false → Ends (suc n) (again e))
      → Ends n (after_attempt o w n r again)
  after_attempt-Ends n (ok t) again q a h =
      stop-Ends n _ refl (ap last_result (sym q)) (success t q)
  after_attempt-Ends n (err e) again q a h = elim (Bool-cases (leb (attempt_cap o w e) (suc n))) [
    | inl c ↦ rw (a, c) (stop-Ends n _ refl (ap last_result (sym q)) (exhausted e q (leb→le _ _ c)))
    | inr c ↦ elim (Bool-cases (o.is_retryable e)) [
      | inl d ↦
          let goes : GoesOn n = record {
            error = e;
            failed = q;
            retryable = d;
            attempt_left = ground (arith, c);
          } in
          rw (a, c, d) (log_retry-Ends n (again e) _ goes (h e c))
      | inr d ↦ rw (a, c, d) (stop-Ends n _ refl (ap last_result (sym q)) (hopeless e q d))
    ]
  ]

  retry_loop-Ends :
      (left n : ℕ) (last : Option E)
      → n + suc left ≡ max_attempts o w
      → ((k : ℕ) → w.aborted_before k ≡ false)
      → ((k : ℕ) → w.aborted_after k ≡ false)
      → Ends n (retry_loop o w (suc left) n last)
  unfolding retry_loop
  retry_loop-Ends zero n last m before after =
      rw (before n) (after_attempt-Ends n (w.fn n) _ refl (after n) λ e c. absurd (ground arith))
  retry_loop-Ends (suc left) n last m before after = rw (before n) (
      after_attempt-Ends n (w.fn n) _ refl (after n)
        λ e c. retry_loop-Ends left (suc n) (some e) (omega arith) before after)

  after_attempt-calls :
      (k n : ℕ) (r : Result E T) (again : E → Run T E)
      → n < k
      → ((e : E) → (again e).calls ≤ k)
      → (after_attempt o w n r again).calls ≤ k
  after_attempt-calls k n (ok t) again m h = omega arith
  after_attempt-calls k n (err e) again m h = ground (arith, h e)

  retry_loop-aborted :
      (k left n : ℕ) (last : Option E)
      → w.aborted_before k ≡ true
      → n ≤ k
      → n + left ≡ max_attempts o w
      → (retry_loop o w left n last).calls ≤ k
  unfolding retry_loop
  retry_loop-aborted k zero n last a m c = m
  retry_loop-aborted k (suc left) n last a m c = elim (Bool-cases (w.aborted_before n)) [
    | inl b ↦ rw b m
    | inr b ↦ elim (dec_lt n k) [
      | yes lt ↦ rw b (
          after_attempt-calls k n (w.fn n) _ lt
            λ e. retry_loop-aborted k left (suc n) (some e) a lt (omega arith))
      | no ge ↦
          let same : n ≡ k = omega arith in
          let both : true ≡ false = sym a ∙ sym (ap w.aborted_before same) ∙ b in cc
    ]
  ]

  -- The operation is called at most `maxAttempts` times; every error that is retried is retryable,
  -- leaves an attempt under the cap for that error, and is waited for no longer than the maximum;
  -- each retry is one call, and at most one call is not retried.
  pub with_retry_bounds :
      All IsRetried (with_retry o w).retries
      × ((with_retry o w).calls ≤ max_attempts o w)
      × (length (with_retry o w).retries ≤ (with_retry o w).calls)
      × ((with_retry o w).calls ≤ length (with_retry o w).retries + 1)
  unfolding with_retry
  with_retry_bounds =
      let c = retry_loop-Counts (max_attempts o w) 0 none in
      (
        retry_loop-IsRetried (max_attempts o w) 0 none,
        omega (arith, c.few),
        omega (arith, c.least),
        omega (arith, c.most),
      )

  -- Where nothing aborts and an attempt is allowed, the operation is called at least once, and up
  -- to the first result that is final: a success, an error that is not retryable, or one that used
  -- the last attempt allowed for it. Each result before was an error that is retryable and left an
  -- attempt. The outcome is the final result.
  pub with_retry-first_final :
      0 < max_attempts o w
      → ((k : ℕ) → w.aborted_before k ≡ false)
      → ((k : ℕ) → w.aborted_after k ≡ false)
      → (0 < (with_retry o w).calls)
        × ((with_retry o w).outcome ≡ last_result (w.fn ((with_retry o w).calls - 1)))
        × IsFinal ((with_retry o w).calls - 1)
        × ((k : ℕ) → suc k < (with_retry o w).calls → GoesOn k)
  unfolding with_retry
  with_retry-first_final some_attempt before after =
      let e : max_attempts o w ≡ suc (max_attempts o w - 1) = omega arith in
      let ends : Ends 0 (with_retry o w) =
        rw e (retry_loop-Ends (max_attempts o w - 1) 0 none (omega arith) before after) in
      (ends.called, ends.outcome, ends.final, λ k high. ends.before k (omega arith) high)

  -- Once the signal is set before attempt `k`, counted from 0, the operation is called no more
  -- than `k` times.
  pub with_retry-aborted : (k : ℕ) → w.aborted_before k ≡ true → (with_retry o w).calls ≤ k
  unfolding with_retry
  with_retry-aborted k a =
      retry_loop-aborted k (max_attempts o w) 0 none a (omega arith) (omega arith)

abbrev pub IsLlmRetry : Retried LlmError → Type 0
IsLlmRetry x =
    (is_retryable_kind x.error.kind ≡ true) × ((x.error.kind ≢ timeout) ⊎ (x.attempt < 2))

timeout_retried_once :
    (k : LlmErrorKind) (n m : ℕ)
    → n < min m (get_or (attempts_of_kind k) m)
    → (k ≢ timeout) ⊎ (n < 2)
timeout_retried_once timeout n m h = inr (omega arith)
timeout_retried_once _ n m h = inl (λ e. cc)

IsRetried-IsLlmRetry :
    {T : Type 0} (options : RetryOptions) (w : Surroundings T LlmError) (x : Retried LlmError)
    → IsRetried (llm_retry_options options) w x
    → IsLlmRetry x
unfolding is_retryable_llm_error
IsRetried-IsLlmRetry options w x v =
    (v.retryable, timeout_retried_once x.error.kind x.attempt _ v.below_cap)

All-map {ℓ κ ι} :
    {A : Type ℓ} {P : A → Type κ} {Q : A → Type ι} (xs : List A)
    → ((x : A) → P x → Q x)
    → All P xs
    → All Q xs
All-map [] f h = tt
All-map (x ∷ xs) f h = (f x h.0, All-map xs f h.1)

-- With the LLM's options, only rate limits, server errors, network errors and timeouts are
-- retried, and a timeout only when it was the first attempt.
pub with_llm_retry-IsLlmRetry :
    {T : Type 0} (options : RetryOptions) (w : Surroundings T LlmError)
    → All IsLlmRetry (with_llm_retry options w).retries
unfolding with_llm_retry
with_llm_retry-IsLlmRetry options w =
    All-map _ (IsRetried-IsLlmRetry options w) (with_retry_bounds (llm_retry_options options) w).0
