-- ===== src/Runtime/Inference/Commit.antt =====
-- What a turn leaves in the trace, hooks aside.
use roj.Base.{
  get_or, ltb, subst, ℕ, zero, suc, ◌≡◌, refl, sym, ap, ◌∙◌, ◌&&◌, Option, none, some, List, ◌∷◌,
  is_empty, Option-cases, Bool-cases, inl, inr, Result, ok, err,
}
use roj.Agent.{AgentState}
use roj.Agent.Retry.{LlmError, is_retryable_llm_error}
use roj.Event.{inference_failed, inference_retried}
use roj.Runtime.{
  Reply, InferenceResponse, HandlerResult, skip, modify_response, retry, pause, Trace, Runtime,
  emit,
}
use roj.Runtime.Hooks.{execute_before_inference, execute_after_inference}
use roj.Runtime.Hooks.Quiet.{
  emit_handler_pause_quiet, execute_before_inference_quiet, execute_after_inference_quiet,
  execute_on_error_quiet,
}
use roj.Runtime.Dequeue.{collect_plugin_messages, consume_dequeued_tokens}
use roj.Runtime.Request.{emit_inference_completed, prepare, start_inference}
use roj.Runtime.Inference.{
  commit, fail, is_aborted, if_there, report, notify_error, conclude_turn, settle, attempt,
  unless_skipped, turn, run_inference,
}
use roj.Runtime.Inference.Marks.{
  Mark, started, completed, failed, retried, marks, marks_quiet, answered, Turn, gone, nothing_new,
  held, skipped, abandoned, kept, dropped, committed, again,
}
use roj.Runtime.Inference.Steps.{marks-consume_dequeued_tokens, marks-commit, marks-ask}

module _ (r : Runtime) where
  -- What the recursive call keeps, when there is one.
  Again : ℕ → Option (Trace → Trace) → Type 0
  Again n none = Unit
  Again n (some go) = (k : ℕ) × (n ≡ suc k) × ((w : Trace) → Turn r k (r.state w) w (marks (go w)))

  module _ (n : ℕ) (a : AgentState) (t : Trace) where
    by_marks : {xs ys : List Mark} → xs ≡ ys → Turn r n (some a) t ys → Turn r n (some a) t xs
    by_marks e h = subst (Turn r n (some a) t) (sym e) h

    commit-Turn :
        (reply : Reply) (v : InferenceResponse) (u : Trace)
        → (answered r a t).1 ≡ ok v
        → marks u ≡ started ∷ marks t
        → Turn r n (some a) t (marks (commit r reply v (collect_plugin_messages r t) u))
    commit-Turn reply v u q e =
        let (now, then_marks, m) = marks-commit r reply v (collect_plugin_messages r t) u in
        by_marks m (committed n a t now v q (then_marks ∙ ap (λ l. completed ∷ l) e))

    conclude_turn-Turn :
        (go : Option (Trace → Trace)) (v : InferenceResponse) (u : Trace)
        (result : Option HandlerResult)
        → Again n go
        → (answered r a t).1 ≡ ok v
        → (execute_after_inference r (answered r a t).0).1 ≡ result
        → marks u ≡ started ∷ marks t
        → Turn r n
            (some a)
            t
            (marks (conclude_turn r go v (collect_plugin_messages r t) (u, result)))
    unfolding Again marks
    conclude_turn-Turn go v u (some (pause reason)) h q x e =
        by_marks (emit_handler_pause_quiet marks marks_quiet r reason _) (commit-Turn _ v u q e)
    conclude_turn-Turn (some go) v u (some retry) (k, j, h) q x e =
        let now = emit (inference_retried r.id) u in
        subst (λ i. Turn r i (some a) t (marks (go now))) (sym j)
          (again k a t now v (marks (go now)) q x (ap (λ l. retried ∷ l) e) (h now))
    conclude_turn-Turn go v u (some (modify_response reply)) h q x e = commit-Turn _ v u q e
    conclude_turn-Turn go v u result h q x e = commit-Turn _ v u q e

    marks-notify_error :
        (e : LlmError) (o : Option AgentState) (u : Trace) → marks (notify_error r e o u) ≡ marks u
    marks-notify_error e none u = refl
    marks-notify_error e (some b) u =
        elim (Bool-cases
          (is_retryable_llm_error e && ltb 1 (get_or b.consecutive_inference_failures 1))) [
            | inl c ↦ rw (notify_error, c) refl
            | inr c ↦ rw (notify_error, c) (execute_on_error_quiet marks marks_quiet r u)
          ]

    marks-report : (e : LlmError) (u : Trace) → marks (report r e u) ≡ failed ∷ marks u
    unfolding marks
    marks-report e u =
        let now = emit (inference_failed r.id e.message) u in marks-notify_error e (r.state now) now

    fail-Turn :
        (e : LlmError) (u : Trace)
        → (answered r a t).1 ≡ err e
        → marks u ≡ started ∷ marks t
        → Turn r n (some a) t (marks (fail r e (collect_plugin_messages r t) u))
    unfolding fail marks
    fail-Turn e u q h = elim (Bool-cases (is_aborted e.kind)) [
      | inl b ↦ rw (fail, b) (by_marks h (abandoned n a t e q b))
      | inr b ↦ elim (Bool-cases (is_retryable_llm_error e)) [
        | inl c ↦
            rw (fail, b, c)
              (by_marks (marks-report e u ∙ ap (λ l. failed ∷ l) h) (kept n a t e q c))
        | inr c ↦
            let ds = collect_plugin_messages r t in
            rw (fail, b, c)
              (by_marks
                (marks-report e (consume_dequeued_tokens r ds u)
                  ∙ ap (λ l. failed ∷ l) (marks-consume_dequeued_tokens r ds u))
                (dropped n a t u e q c h))
      ]
    ]

    settle-Turn :
        (go : Option (Trace → Trace)) (x : Trace × Result LlmError InferenceResponse)
        → Again n go
        → answered r a t ≡ x
        → marks x.0 ≡ started ∷ marks t
        → Turn r n (some a) t (marks (settle r go (collect_plugin_messages r t) x))
    settle-Turn go (u, err e) h q m = fail-Turn e u (ap (λ p. p.1) q) m
    settle-Turn go (u, ok v) h q m =
        let (now, result) = execute_after_inference r u in
        conclude_turn-Turn go v now result h (ap (λ p. p.1) q)
          (ap (λ p. (execute_after_inference r p.0).1) q)
          (execute_after_inference_quiet marks marks_quiet r u ∙ m)

    marks-answered : marks (answered r a t).0 ≡ started ∷ marks t
    unfolding marks
    marks-answered =
        let before = (execute_before_inference r t).0 in
        let p = prepare r (get_or (r.state before) a) (collect_plugin_messages r t) before in
        marks-ask r _ p.replayed (start_inference r p before)
        ∙ ap (λ l. started ∷ l) (execute_before_inference_quiet marks marks_quiet r t)

    attempt-Turn :
        (go : Option (Trace → Trace))
        → Again n go
        → let before = (execute_before_inference r t).0 in
          let p = prepare r (get_or (r.state before) a) (collect_plugin_messages r t) before in
          Turn r n (some a) t (marks (attempt r go p (collect_plugin_messages r t) before))
    unfolding attempt
    attempt-Turn go h = settle-Turn go (answered r a t) h refl marks-answered

    unless_skipped-Turn :
        (go : Option (Trace → Trace)) (result : Option HandlerResult)
        → (execute_before_inference r t).1 ≡ result
        → Again n go
        → let before = (execute_before_inference r t).0 in
          Turn r n
            (some a)
            t
            (marks (unless_skipped r go a (collect_plugin_messages r t) (before, result)))
    unfolding emit_inference_completed marks
    unless_skipped-Turn go (some (skip reply)) q h =
        by_marks (ap (λ l. completed ∷ l) (execute_before_inference_quiet marks marks_quiet r t))
          (skipped n a t reply q)
    unless_skipped-Turn go (some (pause reason)) q h =
        by_marks (execute_before_inference_quiet marks marks_quiet r t) (held n a t reason q)
    unless_skipped-Turn go result q h = attempt-Turn go h

    turn-Turn :
        (go : Option (Trace → Trace))
        → Again n go
        → Turn r n (some a) t (marks (turn r go a (collect_plugin_messages r t) t))
    turn-Turn go h =
        elim (Bool-cases
          (is_empty a.pending_tool_results && is_empty (collect_plugin_messages r t))) [
            | inl b ↦ rw (turn, b) (nothing_new n a t b)
            | inr b ↦
                let q : (execute_before_inference r t).1 ≡ (execute_before_inference r t).1 =
                  refl in
                rw (turn, b) (unless_skipped-Turn go (execute_before_inference r t).1 q h)
          ]

  pub run_inference-Turn :
      (n : ℕ) (a : AgentState) (t : Trace) → Turn r n (some a) t (marks (run_inference r n a t))
  unfolding run_inference Again
  run_inference-Turn zero a t = turn-Turn zero a t none tt
  run_inference-Turn (suc n) a t =
      let go = λ (w : Trace). if_there r (r.state w) w (λ fresh. run_inference r n fresh w) in
      turn-Turn (suc n) a t (some go) (
        n,
        refl,
        λ w. elim (Option-cases (r.state w)) [
          | inl lost ↦ rw lost (gone n w)
          | inr (fresh, there) ↦ rw there (run_inference-Turn n fresh w)
        ],
      )
