-- ===== src/Runtime/Inference/Steps.antt =====
-- What consuming input, committing a response and asking the provider add to the marks.
use roj.Base.{
  ℕ, zero, suc, ◌≡◌, refl, ap, Option, none, some, List, [], ◌∷◌, ◌++◌, Option-cases, Bool-cases,
  inl, inr, Result, ok, err,
}
use roj.Agent.Retry.{LlmError}
use roj.Runtime.{consumed, requested, Reply, InferenceResponse, Trace, Runtime}
use roj.Message.{LlmMessage}
use roj.Runtime.Dequeue.{Dequeued, consume_dequeued_tokens, mark_consumed, note_consumed}
use roj.Runtime.Request.{
  emit_inference_completed, ask_again, ask, after_answer, is_empty_stop, nudge,
}
use roj.Runtime.Inference.{commit}
use roj.Runtime.Inference.Marks.{completed, noted, marks, take_tokens, take_noted, taken}

marks-mark_consumed :
    (ds : List Dequeued) (t : Trace) → marks (mark_consumed ds t) ≡ take_tokens ds (marks t)
unfolding marks
marks-mark_consumed [] t = refl
marks-mark_consumed (d ∷ ds) t = marks-mark_consumed ds (consumed d.plugin d.token ∷ t)

module _ (r : Runtime) where
  marks-note_consumed :
      (ds : List Dequeued) (t : Trace)
      → marks (note_consumed r ds (mark_consumed ds t)) ≡ take_noted ds (marks t)
  unfolding marks
  marks-note_consumed [] t = refl
  marks-note_consumed (d ∷ ds) t = ap (λ l. noted ∷ l) (marks-mark_consumed (d ∷ ds) t)

  pub marks-consume_dequeued_tokens :
      (ds : List Dequeued) (t : Trace)
      → marks (consume_dequeued_tokens r ds t) ≡ taken (r.state t) ds (marks t)
  unfolding consume_dequeued_tokens
  marks-consume_dequeued_tokens ds t = elim (Option-cases (r.state t)) [
    | inl n ↦ rw (consume_dequeued_tokens, n) refl
    | inr (a, n) ↦ rw (consume_dequeued_tokens, n) (marks-note_consumed ds t)
  ]

  pub marks-commit :
      (reply : Reply) (v : InferenceResponse) (ds : List Dequeued) (t : Trace)
      → (now : Trace) × (marks now ≡ completed ∷ marks t)
        × (marks (commit r reply v ds t) ≡ taken (r.state now) ds (marks now))
  unfolding commit marks emit_inference_completed
  marks-commit reply v ds t = (_, refl, marks-consume_dequeued_tokens ds _)

  marks-after_answer :
      (left : ℕ) (result : Result LlmError InferenceResponse)
      (next : ℕ → Trace → Trace × Result LlmError InferenceResponse) (t : Trace)
      → ((k : ℕ) (u : Trace) → marks (next k u).0 ≡ marks u)
      → marks (after_answer r left result next t).0 ≡ marks t
  marks-after_answer left (err e) next t h = refl
  marks-after_answer zero (ok v) next t h = refl
  marks-after_answer (suc left) (ok v) next t h = elim (Bool-cases (is_empty_stop v)) [
    | inl e ↦ rw (after_answer, e) (h left t)
    | inr e ↦ rw (after_answer, e) refl
  ]

  marks-ask_again :
      (left : ℕ) (messages : List LlmMessage) (t : Trace)
      → marks (ask_again r left messages t).0 ≡ marks t
  unfolding ask_again marks
  marks-ask_again zero messages t =
      marks-after_answer zero (r.inference (requested messages ∷ t))
        (λ left u. (u, r.inference (requested messages ∷ t))) (requested messages ∷ t) (λ k u. refl)
  marks-ask_again (suc left) messages t =
      marks-after_answer (suc left) (r.inference (requested messages ∷ t))
        (λ rest u. ask_again r left messages u) (requested messages ∷ t)
        (λ k u. marks-ask_again left messages u)

  pub marks-ask :
      (messages : List LlmMessage) (replayed : Option InferenceResponse) (t : Trace)
      → marks (ask r messages replayed t).0 ≡ marks t
  unfolding ask marks
  marks-ask messages (some response) t =
      marks-after_answer 2 (ok response) (λ k u. ask_again r k (messages ++ (nudge ∷ [])) u) t
        (λ k u. marks-ask_again k (messages ++ (nudge ∷ [])) u)
  marks-ask messages none t =
      marks-after_answer 2 (r.inference (requested messages ∷ t))
        (λ k u. ask_again r k (messages ++ (nudge ∷ [])) u) (requested messages ∷ t)
        (λ k u. marks-ask_again k (messages ++ (nudge ∷ [])) u)
