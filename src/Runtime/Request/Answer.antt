-- ===== src/Runtime/Request/Answer.antt =====
-- The response that a turn goes on with.
use roj.Base.{
  ℕ, zero, suc, ◌+◌, ◌≤◌, ◌≡◌, refl, subst, false, Option, none, some, List, [], ◌∷◌, ◌++◌, Result,
  ok, err, Bool-cases, inl, inr, arith,
}
use roj.Sanitize.{is_blank}
use roj.Message.{LlmMessage}
use roj.Agent.Retry.{LlmError}
use roj.Runtime.{requested, InferenceResponse, Trace, Runtime}
use roj.Runtime.Request.{is_empty_stop, after_answer, ask_again, ask, nudge}

unfoldable pub requests : Trace → ℕ
requests [] = 0
requests (requested messages ∷ t) = suc (requests t)
requests (_ ∷ t) = requests t

abbrev NotEmpty : Result LlmError InferenceResponse → Type 0
NotEmpty (ok v) = is_empty_stop v ≡ false
NotEmpty (err e) = Unit

-- The requests that a turn may make.
abbrev pub requests_for : Option InferenceResponse → ℕ
requests_for none = 3
requests_for (some response) = 2

-- A result that is no empty stop, and at most `k` more requests.
record Answered (k : ℕ) (t : Trace) (x : Trace × Result LlmError InferenceResponse) : Type 0 where
  answer : NotEmpty x.1
  few : requests x.0 ≤ requests t + k

waiting_not_empty :
    (v : InferenceResponse) → is_empty_stop (record v { content = some "WAITING" }) ≡ false
unfolding is_empty_stop is_blank
waiting_not_empty v = refl

module _ (r : Runtime) where
  after_answer-Answered :
      (left k : ℕ) (result : Result LlmError InferenceResponse)
      (next : ℕ → Trace → Trace × Result LlmError InferenceResponse) (t : Trace)
      → ((j : ℕ) → (left ≡ suc j) → Answered k t (next j t))
      → Answered k t (after_answer r left result next t)
  after_answer-Answered left k (err e) next t h = record { answer = tt; few = omega arith }
  after_answer-Answered zero k (ok v) next t h = elim (Bool-cases (is_empty_stop v)) [
    | inl e ↦ rw e (record { answer = waiting_not_empty v; few = omega arith })
    | inr e ↦ rw e (record { answer = e; few = omega arith })
  ]
  after_answer-Answered (suc left) k (ok v) next t h = elim (Bool-cases (is_empty_stop v)) [
    | inl e ↦ rw (after_answer, e) (h left refl)
    | inr e ↦ rw (after_answer, e) (record { answer = e; few = omega arith })
  ]

  one_more :
      (k : ℕ) (messages : List LlmMessage) (t : Trace)
      (x : Trace × Result LlmError InferenceResponse)
      → Answered k (requested messages ∷ t) x
      → Answered (suc k) t x
  unfolding requests
  one_more k messages t x h = let few = h.few in record { answer = h.answer; few = omega arith }

  ask_again-Answered :
      (left : ℕ) (messages : List LlmMessage) (t : Trace)
      → Answered (suc left) t (ask_again r left messages t)
  unfolding ask_again
  ask_again-Answered zero messages t =
      let now = requested messages ∷ t in
      one_more 0 messages t _ (
        after_answer-Answered zero 0 (r.inference now) (λ left u. (u, r.inference now)) now
          (λ j q. absurd (omega arith)))
  ask_again-Answered (suc left) messages t =
      let now = requested messages ∷ t in
      one_more (suc left) messages t _ (
        after_answer-Answered (suc left) (suc left) (r.inference now)
          (λ rest u. ask_again r left messages u) now (λ j q. ask_again-Answered left messages now))

  at_most :
      (j k : ℕ) (t : Trace) (x : Trace × Result LlmError InferenceResponse)
      → j ≤ k
      → Answered j t x
      → Answered k t x
  at_most j k t x h a = let few = a.few in record { answer = a.answer; few = omega arith }

  nudged-Answered :
      (messages : List LlmMessage) (t : Trace) (j : ℕ)
      → 2 ≡ suc j
      → Answered 2 t (ask_again r j messages t)
  nudged-Answered messages t j q =
      at_most (suc j) 2 t _ (omega arith) (ask_again-Answered j messages t)

  ask-Answered :
      (messages : List LlmMessage) (replayed : Option InferenceResponse) (t : Trace)
      → Answered (requests_for replayed) t (ask r messages replayed t)
  unfolding ask
  ask-Answered messages (some response) t =
      let nudged = messages ++ (nudge ∷ []) in
      after_answer-Answered 2 2 (ok response) (λ left u. ask_again r left nudged u) t
        (nudged-Answered nudged t)
  ask-Answered messages none t =
      let now = requested messages ∷ t in
      let nudged = messages ++ (nudge ∷ []) in
      one_more 2 messages t _ (
        after_answer-Answered 2 2 (r.inference now) (λ left u. ask_again r left nudged u) now
          (nudged-Answered nudged now))

-- The response that a turn goes on with is never an empty stop, also when it was read from the
-- call log, and it takes at most three requests, two after a logged response.
pub ask-not_empty :
    (r : Runtime) (messages : List LlmMessage) (replayed : Option InferenceResponse) (t : Trace)
    → ((v : InferenceResponse) → (ask r messages replayed t).1 ≡ ok v → is_empty_stop v ≡ false)
      × (requests (ask r messages replayed t).0 ≤ requests t + requests_for replayed)
ask-not_empty r messages replayed t =
    let a = ask-Answered r messages replayed t in (λ v e. subst NotEmpty e a.answer, a.few)
