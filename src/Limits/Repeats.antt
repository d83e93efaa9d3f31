-- ===== src/Limits/Repeats.antt =====
-- The recent calls and replies that the counters remember, and how repetitions are counted.
use mathlib.Core.List.{reverse, reverse-cons, reverse-append}
use roj.Base.{
  ℕ, zero, suc, ◌-◌, ◌≤◌, ◌≡◌, refl, sym, ap, subst, ◌∙◌, String, Bool, true, false, Option, none,
  some, List, [], ◌∷◌, ◌++◌, if◌then◌else◌, ◌=ₛ◌, ◌||◌, eq_refl, length, length-drop, Dict, lookup,
  insert, lookup-insert, arith, Bool-cases, inl, inr, append_assoc,
}
use roj.Message.{Json}
use roj.Agent.{LlmMetrics, truthy}
use roj.Event.{
  EventBody, agent_spawned, mailbox_message, agent_input_consumed, inference_completed,
  auxiliary_inference_completed, context_compacted, tool_started, tool_completed, tool_failed,
  agent_resumed, LlmResponse,
}
use roj.Session.{SessionState}
use roj.Limits.{AgentCounters, create_agent_counters}
use roj.Limits.Counters.{
  slice_last, with_counters, with_parent, one_spawned, one_sent, one_compaction, progressed, spend,
  add_response, on_inference, on_started, on_resumed, tool_succeeded, tool_has_failed,
  reduce_limits,
}
use roj.Limits.Check.{count_while, count_consecutive_tail_duplicates, count_from_last}
use roj.Limits.Budget.{Seen, run_limits, lookup-with_counters, map_counters}

abbrev IsShort : AgentCounters → Type 0
IsShort c = (length c.recent_tool_call_hashes ≤ 20) × (length c.recent_response_hashes ≤ 10)

abbrev ShortOption : Option AgentCounters → Type 0
ShortOption none = Unit {0}
ShortOption (some c) = IsShort c

length-slice_last : (n : ℕ) (xs : List String) → length (slice_last n xs) ≤ n
length-slice_last n xs = omega (arith, length-drop (length xs - n) xs)

with_counters-Short :
    (b id : String) (f : AgentCounters → AgentCounters) (limits : Dict AgentCounters)
    → ((c : AgentCounters) → IsShort c → IsShort (f c))
    → ShortOption (lookup b limits)
    → ShortOption (lookup b (with_counters id f limits))
with_counters-Short b id f limits h s =
    subst ShortOption (sym (lookup-with_counters b id f limits)) (go (id =ₛ b) (lookup b limits) s)
  where
    go :
        (mine : Bool) (o : Option AgentCounters)
        → ShortOption o
        → ShortOption (if mine then map_counters f o else o)
    go false o v = v
    go true none v = tt
    go true (some c) v = h c v

with_parent-Short :
    (b : String) (parent : Option String) (limits : Dict AgentCounters)
    → ShortOption (lookup b limits)
    → ShortOption (lookup b (with_parent parent one_spawned limits))
with_parent-Short b none limits s = s
with_parent-Short b (some id) limits s = with_counters-Short b id one_spawned limits (λ c v. v) s

insert-Short :
    (b id : String) (c : AgentCounters) (limits : Dict AgentCounters)
    → IsShort c
    → ShortOption (lookup b limits)
    → ShortOption (lookup b (insert id c limits))
insert-Short b id c limits v s =
    subst ShortOption (sym (lookup-insert id b c limits)) (go (id =ₛ b))
  where
    go : (mine : Bool) → ShortOption (if mine then some c else lookup b limits)
    go false = s
    go true = v

fresh-IsShort : IsShort create_agent_counters
fresh-IsShort = (omega arith, omega arith)

module _ (response_fingerprint : Option String → String)
    (tool_call_fingerprint : String → Json → String) where
  on_inference-IsShort :
      (r : LlmResponse) (u : LlmMetrics) (c : AgentCounters)
      → IsShort c
      → IsShort (on_inference response_fingerprint tool_call_fingerprint r u c)
  unfolding on_inference add_response
  on_inference-IsShort r u c v = ground (
    arith,
    length-slice_last 10 (c.recent_response_hashes ++ (response_fingerprint r.content ∷ [])),
  )

  on_started-IsShort :
      (call name : String) (input : Json) (c : AgentCounters)
      → IsShort c
      → IsShort (on_started response_fingerprint tool_call_fingerprint call name input c)
  unfolding on_started
  on_started-IsShort call name input c v = ground (
    arith,
    length-slice_last 20 (c.recent_tool_call_hashes ++ (tool_call_fingerprint name input ∷ [])),
  )

  reduce_limits-Short :
      (b : String) (s : SessionState) (body : EventBody) (limits : Dict AgentCounters)
      → ShortOption (lookup b limits)
      → ShortOption
          (lookup b (reduce_limits response_fingerprint tool_call_fingerprint s body limits))
  unfolding reduce_limits on_resumed tool_succeeded tool_has_failed
  reduce_limits-Short b s (agent_spawned id name parent input) limits v =
      with_parent-Short b (truthy parent) _
        (insert-Short b id create_agent_counters limits fresh-IsShort v)
  reduce_limits-Short b s (mailbox_message to sequence m) limits v =
      elim (Bool-cases (m.sender =ₛ "user" || m.sender =ₛ "")) [
        | inl e ↦ rw e v
        | inr e ↦ rw e (with_counters-Short b m.sender one_sent limits (λ c w. w) v)
      ]
  reduce_limits-Short b s (agent_input_consumed id plugins) limits v =
      with_counters-Short b id progressed limits (λ c w. w) v
  reduce_limits-Short b s (inference_completed id r u) limits v =
      with_counters-Short b id _ limits (on_inference-IsShort r u) v
  reduce_limits-Short b s (auxiliary_inference_completed id u) limits v =
      with_counters-Short b id (spend u) limits (λ c w. w) v
  reduce_limits-Short b s (context_compacted id history) limits v =
      with_counters-Short b id one_compaction limits (λ c w. w) v
  reduce_limits-Short b s (tool_started id call name input) limits v =
      with_counters-Short b id _ limits (on_started-IsShort call name input) v
  reduce_limits-Short b s (tool_completed e result) limits v =
      with_counters-Short b e.agent_id _ limits (λ c w. w) v
  reduce_limits-Short b s (tool_failed e error) limits v =
      with_counters-Short b e.agent_id _ limits (λ c w. w) v
  reduce_limits-Short b s (agent_resumed id) limits v =
      with_counters-Short b id on_resumed limits (λ c w. (omega arith, omega arith)) v
  reduce_limits-Short b s _ limits v = v

  run_limits-Short :
      (b : String) (log : List Seen) (limits : Dict AgentCounters)
      → ShortOption (lookup b limits)
      → ShortOption (lookup b (run_limits response_fingerprint tool_call_fingerprint log limits))
  unfolding run_limits
  run_limits-Short b [] limits v = v
  run_limits-Short b ((s, body) ∷ log) limits v =
      run_limits-Short b log _ (reduce_limits-Short b s body limits v)

  -- After any log, the counters of an agent remember at most 20 tool calls and 10 replies.
  pub run_limits-recent :
      (b : String) (log : List Seen) (c : AgentCounters)
      → lookup b (run_limits response_fingerprint tool_call_fingerprint log []) ≡ some c
      → (length c.recent_tool_call_hashes ≤ 20) × (length c.recent_response_hashes ≤ 10)
  unfolding lookup
  run_limits-recent b log c found = subst ShortOption found (run_limits-Short b log [] tt)

abbrev pub copies : ℕ → String → List String
copies zero x = []
copies (suc n) x = x ∷ copies n x

count_while-copies :
    (n : ℕ) (x y : String) (rest : List String)
    → (y =ₛ x) ≡ false
    → count_while x (copies n x ++ (y ∷ rest)) ≡ n
unfolding count_while
count_while-copies zero x y rest h = rw h
count_while-copies (suc n) x y rest h =
    rw (eq_refl x, count_while-copies n x y rest h) (omega arith)

copies-snoc : (n : ℕ) (x : String) → copies n x ++ (x ∷ []) ≡ x ∷ copies n x
copies-snoc zero x = refl
copies-snoc (suc n) x = ap (◌∷◌ x) (copies-snoc n x)

reverse-copies : (n : ℕ) (x : String) → reverse (copies n x) ≡ copies n x
reverse-copies zero x = refl
reverse-copies (suc n) x =
    reverse-cons x (copies n x) ∙ ap (λ l. l ++ (x ∷ [])) (reverse-copies n x) ∙ copies-snoc n x

reverse-run :
    (n : ℕ) (x y : String) (older : List String)
    → reverse (older ++ (y ∷ copies n x)) ≡ copies n x ++ (y ∷ reverse older)
reverse-run n x y older =
    reverse-append older (y ∷ copies n x)
    ∙ ap (λ l. l ++ reverse older)
        (reverse-cons y (copies n x) ∙ ap (λ l. l ++ (y ∷ [])) (reverse-copies n x))
    ∙ append_assoc (copies n x) (y ∷ []) (reverse older)

-- A run of equal items at the end, after a different one, is counted in full and no further.
pub count_consecutive_tail_duplicates_lem :
    (n : ℕ) (x y : String) (older : List String)
    → (y =ₛ x) ≡ false
    → count_consecutive_tail_duplicates (older ++ (y ∷ copies (suc n) x)) ≡ suc n
unfolding count_consecutive_tail_duplicates
count_consecutive_tail_duplicates_lem n x y older h =
    ap count_from_last (reverse-run (suc n) x y older)
    ∙ count_while-copies (suc n) x y (reverse older) h
