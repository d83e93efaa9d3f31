-- ===== src/Agent/Loop/Backoff.antt =====
-- The wait before an errored agent resumes.
use native.Mathlib.Nat.{pow-suc}
use roj.Base.{ℕ, zero, suc, ◌+◌, ◌^◌, ◌≤◌, ◌≡◌, arith, get_or}
use roj.Agent.{AgentState}
use roj.Agent.Loop.{
  ErrorResumeBackoff, backoff_delay, error_resume_delay_ms, default_error_resume_max_delay_ms,
}

-- While the clock is not before the last failure, the wait is at most the configured maximum, and
-- a wake that fires after exactly that wait finds nothing left to wait for.
pub error_resume_delay_ms_bounds :
    (config : ErrorResumeBackoff) (a : AgentState) (now : ℕ)
    → get_or a.last_inference_failure_at 0 ≤ now
    → (error_resume_delay_ms config a now
        ≤ get_or config.max_delay_ms default_error_resume_max_delay_ms)
      × (error_resume_delay_ms config a (now + error_resume_delay_ms config a now) ≡ 0)
unfolding error_resume_delay_ms
error_resume_delay_ms_bounds config a now h = ground arith

two_pow_mono : (n : ℕ) → 2 ^ n ≤ 2 ^ suc n
two_pow_mono n = rw pow-suc (omega arith)

-- One more failure never shortens the wait.
pub backoff_delay_mono :
    (config : ErrorResumeBackoff) (n : ℕ) → backoff_delay config n ≤ backoff_delay config (suc n)
unfolding backoff_delay
backoff_delay_mono config zero = omega arith
backoff_delay_mono config (suc n) = grind (arith, two_pow_mono n)
