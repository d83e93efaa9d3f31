-- ===== src/Examples/Agent.antt =====
-- The theorems on retries, at small inputs.
use roj.Base.{
  ℕ, zero, suc, ◌+◌, ◌-◌, ◌≤◌, ◌<◌, ◌≡◌, refl, false, none, some, arith, All, length, Result, ok,
  err,
}
use roj.Agent.Retry.{
  RetryOptions, WithRetryOptions, Surroundings, max_attempts, with_retry, LlmError, server_error,
  llm_retry_options,
}
use roj.Agent.Retry.Laws.{
  IsRetried, IsFinal, GoesOn, last_result, with_retry_bounds, with_retry-first_final,
}

abbrev no_options : RetryOptions
no_options = record { max_attempts = some 3; base_delay_ms = none; max_delay_ms = none }

abbrev options : WithRetryOptions LlmError
options = llm_retry_options no_options

abbrev overloaded : LlmError
overloaded = record { kind = server_error; message = "overloaded"; retry_after_ms = none }

abbrev third_time : ℕ → Result LlmError ℕ
third_time (suc (suc zero)) = ok 7
third_time _ = err overloaded

abbrev calm : Surroundings ℕ LlmError
calm = record {
  fn = third_time;
  aborted_before = λ n. false;
  aborted_after = λ n. false;
  jitter = λ n. 0;
}

with_retry_bounds_example :
    All (IsRetried options calm) (with_retry options calm).retries
    × ((with_retry options calm).calls ≤ max_attempts options calm)
    × (length (with_retry options calm).retries ≤ (with_retry options calm).calls)
    × ((with_retry options calm).calls ≤ length (with_retry options calm).retries + 1)
with_retry_bounds_example = with_retry_bounds options calm

some_attempt : 0 < max_attempts options calm
some_attempt = omega arith

with_retry-first_final_example :
    (0 < (with_retry options calm).calls)
    × ((with_retry options calm).outcome
        ≡ last_result options calm (calm.fn ((with_retry options calm).calls - 1)))
    × IsFinal options calm ((with_retry options calm).calls - 1)
    × ((k : ℕ) → suc k < (with_retry options calm).calls → GoesOn options calm k)
with_retry-first_final_example =
    with_retry-first_final options calm some_attempt (λ k. refl) (λ k. refl)
