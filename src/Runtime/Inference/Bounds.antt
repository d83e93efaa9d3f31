-- ===== src/Runtime/Inference/Bounds.antt =====
-- How often a turn starts and completes.
use roj.Base.{
  String, ap, ◌∙◌, ℕ, suc, ◌+◌, ◌≤◌, ◌≡◌, refl, List, [], ◌∷◌, arith, Option, none, some,
}
use roj.Agent.{AgentState}
use roj.Runtime.{Trace, Runtime}
use roj.Runtime.Dequeue.{Dequeued, collect_plugin_messages}
use roj.Runtime.Inference.{run_inference, max_inference_retries}
use roj.Runtime.Inference.Marks.{
  Mark, started, completed, noted, took, marks, take_tokens, taken, Turn, gone, nothing_new, held,
  skipped, abandoned, kept, dropped, committed, again,
}
use roj.Runtime.Inference.Commit.{run_inference-Turn}

abbrev pub starts : List Mark → ℕ
starts [] = 0
starts (started ∷ ms) = suc (starts ms)
starts (_ ∷ ms) = starts ms

abbrev pub completions : List Mark → ℕ
completions [] = 0
completions (completed ∷ ms) = suc (completions ms)
completions (_ ∷ ms) = completions ms

module _ (f : List Mark → ℕ) (noted_free : (ms : List Mark) → f (noted ∷ ms) ≡ f ms)
    (took_free : (plugin token : String) (ms : List Mark) → f (took plugin token ∷ ms) ≡ f ms) where
  take_tokens_free : (ds : List Dequeued) (ms : List Mark) → f (take_tokens ds ms) ≡ f ms
  take_tokens_free [] ms = refl
  take_tokens_free (d ∷ ds) ms =
      take_tokens_free ds (took d.plugin d.token ∷ ms) ∙ took_free d.plugin d.token ms

  taken_free :
      (o : Option AgentState) (ds : List Dequeued) (ms : List Mark) → f (taken o ds ms) ≡ f ms
  taken_free none ds ms = refl
  taken_free (some a) [] ms = refl
  taken_free (some a) (d ∷ ds) ms =
      noted_free (take_tokens (d ∷ ds) ms) ∙ take_tokens_free (d ∷ ds) ms

starts-Turn :
    (r : Runtime) (n : ℕ) (o : Option AgentState) (t : Trace) (rest : List Mark)
    → Turn r n o t rest
    → (starts rest ≤ starts (marks t) + suc n) × (completions rest ≤ completions (marks t) + 1)
starts-Turn r n _ t _ (gone _ _) = (omega arith, omega arith)
starts-Turn r n _ t _ (nothing_new _ _ _ _) = (omega arith, omega arith)
starts-Turn r n _ t _ (held _ _ _ _ _) = (omega arith, omega arith)
starts-Turn r n _ t _ (skipped _ _ _ _ _) = (omega arith, omega arith)
starts-Turn r n _ t _ (abandoned _ _ _ _ _ _) = (omega arith, omega arith)
starts-Turn r n _ t _ (kept _ _ _ _ _ _) = (omega arith, omega arith)
starts-Turn r n _ t _ (dropped _ _ _ now e _ _ h) =
    let ds = collect_plugin_messages r t in
    let s = taken_free starts (λ ms. refl) (λ p k ms. refl) (r.state now) ds (marks now) in
    let c = taken_free completions (λ ms. refl) (λ p k ms. refl) (r.state now) ds (marks now) in
    let si = ap starts h in
    let ci = ap completions h in (omega (arith, s, si), omega (arith, c, ci))
starts-Turn r n _ t _ (committed _ _ _ now v _ h) =
    let ds = collect_plugin_messages r t in
    let s = taken_free starts (λ ms. refl) (λ p k ms. refl) (r.state now) ds (marks now) in
    let c = taken_free completions (λ ms. refl) (λ p k ms. refl) (r.state now) ds (marks now) in
    let si = ap starts h in
    let ci = ap completions h in (omega (arith, s, si), omega (arith, c, ci))
starts-Turn r _ _ t rest (again n _ _ now v _ _ _ h more) =
    let ih = starts-Turn r n (r.state now) now rest more in
    let si = ap starts h in
    let ci = ap completions h in (omega (arith, ih.0, si), omega (arith, ih.1, ci))

-- One call of `runInference` starts at most four inferences and commits at most one, whatever
-- hooks, plugins and the provider answer.
pub run_inference_bounds :
    (r : Runtime) (a : AgentState) (t : Trace)
    → let after = marks (run_inference r max_inference_retries a t) in
      (starts after ≤ starts (marks t) + 4) × (completions after ≤ completions (marks t) + 1)
run_inference_bounds r a t = starts-Turn r 3 (some a) t _ (run_inference-Turn r 3 a t)
