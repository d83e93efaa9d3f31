-- ===== src/Agent/Retry.antt =====
-- packages/sdk/src/core/agents/retry.ts. What the operation returns on each attempt, the abort
-- signal at each place where it is read, and the random jitter are arguments; a run records what
-- the loop logs, `Operation failed, retrying`.
pub mod Laws
use roj.Base.{
  ℕ, zero, suc, ◌+◌, ◌-◌, ◌*◌, ◌^◌, min, Bool, true, false, not, ◌||◌, Option, none, some, List, [],
  ◌∷◌, if◌then◌else◌, leb, get_or, or_else, Result, ok, err, String,
}

pub record RetryOptions : Type 0 where
  pub max_attempts : Option ℕ
  pub base_delay_ms : Option ℕ
  pub max_delay_ms : Option ℕ

-- `DEFAULT_RETRY_OPTIONS`
abbrev pub default_max_attempts : ℕ
default_max_attempts = 5

abbrev pub default_base_delay_ms : ℕ
default_base_delay_ms = 1000

abbrev pub default_max_delay_ms : ℕ
default_max_delay_ms = 60000

pub record WithRetryOptions (E : Type 0) : Type 0 where
  pub options : RetryOptions
  pub is_retryable : E → Bool
  pub get_retry_delay : E → Option ℕ
  pub get_max_attempts : E → Option ℕ
  pub abort_error : Option E

-- What surrounds the loop: the operation's results by attempt, the signal before and after each
-- attempt, and the jitter in milliseconds.
pub record Surroundings (T E : Type 0) : Type 0 where
  pub fn : ℕ → Result E T
  pub aborted_before : ℕ → Bool
  pub aborted_after : ℕ → Bool
  pub jitter : ℕ → ℕ

pub record Retried (E : Type 0) : Type 0 where
  pub attempt : ℕ
  pub error : E
  pub delay_ms : ℕ

-- `none` as an error is the `null` that `Err(lastError!)` returns when there was no attempt.
pub record Run (T E : Type 0) : Type 0 where
  pub outcome : Result (Option E) T
  pub calls : ℕ
  pub retries : List (Retried E)

module _ {T E : Type 0} (o : WithRetryOptions E) (w : Surroundings T E) where
  abbrev pub max_attempts : ℕ
  max_attempts = get_or o.options.max_attempts default_max_attempts

  abbrev pub max_delay_ms : ℕ
  max_delay_ms = get_or o.options.max_delay_ms default_max_delay_ms

  abbrev backed_off : ℕ → ℕ
  backed_off attempt =
      get_or o.options.base_delay_ms default_base_delay_ms * 2 ^ (attempt - 1) + w.jitter attempt

  unfoldable pub calculate_delay : ℕ → E → ℕ
  calculate_delay attempt error =
      min (get_or (o.get_retry_delay error) (backed_off attempt)) max_delay_ms

  -- The attempts that the error just returned allows.
  abbrev pub attempt_cap : E → ℕ
  attempt_cap e = min max_attempts (get_or (o.get_max_attempts e) max_attempts)

  abbrev pub stop : ℕ → Result (Option E) T → Run T E
  stop calls outcome = record { outcome = outcome; calls = calls; retries = [] }

  abbrev pub log_retry : ℕ → E → Run T E → Run T E
  log_retry attempt e run = record run {
    retries =
        record { attempt = attempt; error = e; delay_ms = calculate_delay attempt e } ∷ run.retries;
  }

  -- After attempt `n`, counted from 0, given what `fn` returned.
  abbrev pub after_attempt : ℕ → Result E T → (E → Run T E) → Run T E
  after_attempt n (ok t) again = stop (suc n) (ok t)
  after_attempt n (err e) again =
      if w.aborted_after n
      then stop (suc n) (err (or_else o.abort_error (some e)))
      else if leb (attempt_cap e) (suc n) || not (o.is_retryable e)
      then stop (suc n) (err (some e))
      else log_retry (suc n) e (again e)

  -- The loop, by the attempts left; `attempt` counts those made, which all called `fn`.
  unfoldable pub retry_loop : ℕ → ℕ → Option E → Run T E
  retry_loop zero attempt last_error = stop attempt (err last_error)
  retry_loop (suc left) attempt last_error =
      let again = λ (e : E). retry_loop left (suc attempt) (some e) in
      if w.aborted_before attempt
      then stop attempt (err (or_else o.abort_error last_error))
      else after_attempt attempt (w.fn attempt) again

  unfoldable pub with_retry : Run T E
  unfolding retry_loop
  with_retry = retry_loop max_attempts 0 none

pub data LlmErrorKind : Type 0 where
  rate_limit invalid_request context_length server_error : LlmErrorKind
  network_error timeout aborted : LlmErrorKind

pub record LlmError : Type 0 where
  pub kind : LlmErrorKind
  pub message : String
  pub retry_after_ms : Option ℕ

abbrev pub is_retryable_kind : LlmErrorKind → Bool
is_retryable_kind rate_limit = true
is_retryable_kind server_error = true
is_retryable_kind network_error = true
is_retryable_kind timeout = true
is_retryable_kind _ = false

unfoldable pub is_retryable_llm_error : LlmError → Bool
is_retryable_llm_error e = is_retryable_kind e.kind

abbrev pub max_llm_timeout_attempts : ℕ
max_llm_timeout_attempts = 2

abbrev pub attempts_of_kind : LlmErrorKind → Option ℕ
attempts_of_kind timeout = some max_llm_timeout_attempts
attempts_of_kind _ = none

-- The options that `withLLMRetry` passes.
abbrev pub llm_retry_options : RetryOptions → WithRetryOptions LlmError
llm_retry_options options = record {
  options = options;
  is_retryable = is_retryable_llm_error;
  get_retry_delay = λ e. e.retry_after_ms;
  get_max_attempts = λ e. attempts_of_kind e.kind;
  abort_error =
      some (record { kind = aborted; message = "Request was aborted"; retry_after_ms = none });
}

unfoldable pub with_llm_retry :
    {T : Type 0} → RetryOptions → Surroundings T LlmError → Run T LlmError
with_llm_retry options w = with_retry (llm_retry_options options) w
