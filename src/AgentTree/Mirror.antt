-- ===== src/AgentTree/Mirror.antt =====
-- The tree that clients build from the log shows what the session's reducer builds from it.
use mathlib.Core.Option
use roj.Base.{
  ℕ, suc, ◌≡◌, refl, sym, ap, ◌∙◌, String, Bool, true, false, Option, none, some, List, [], ◌∷◌,
  if◌then◌else◌, ◌=ₛ◌, length, is_empty, is_some, arith,
}
use roj.Message.{ToolCall}
use roj.Agent.{AgentState, AgentStatus, pending, tool_exec, paused}
use roj.Event.{
  EventBody, inference_completed, tool_completed, tool_failed, agent_conversation_spliced,
  DomainEvent,
}
use roj.Session.Turn.{unless_paused, from_llm_tool_calls}
use roj.Session.Tools.{without_call}
use roj.Session.Projection.{effect, agent_after}
use roj.AgentTree.{
  AgentTreeEntry, status_after_inference_completed, status_after_tool_result,
  status_after_inference_retried, status_after_resume,
}

-- What the tree shows of an agent is the agent's.
pub record Mirrors (e : AgentTreeEntry) (a : AgentState) : Type 0 where
  pub definition_name : e.definition_name ≡ a.definition_name
  pub parent_id : e.parent_id ≡ a.parent_id
  pub status : e.status ≡ a.status
  pub calls : e.pending_tool_call_count ≡ length a.pending_tool_calls
  pub executing : e.is_executing ≡ is_some a.executing_tool_call

-- The same, field by field, as values.
pub record View : Type 0 where
  pub definition_name : String
  pub parent_id : Option String
  pub status : AgentStatus
  pub calls : ℕ
  pub executing : Bool

abbrev pub entry_view : AgentTreeEntry → View
entry_view e = record {
  definition_name = e.definition_name;
  parent_id = e.parent_id;
  status = e.status;
  calls = e.pending_tool_call_count;
  executing = e.is_executing;
}

abbrev pub agent_view : AgentState → View
agent_view a = record {
  definition_name = a.definition_name;
  parent_id = a.parent_id;
  status = a.status;
  calls = length a.pending_tool_calls;
  executing = is_some a.executing_tool_call;
}

-- What is not shown may change.
pub unseen-Mirrors :
    (e f : AgentTreeEntry) (a b : AgentState)
    → entry_view e ≡ entry_view f
    → agent_view a ≡ agent_view b
    → Mirrors e a
    → Mirrors f b
unseen-Mirrors e f a b p q h = record {
  definition_name =
      sym (ap (λ (v : View). v.definition_name) p)
      ∙ h.definition_name
      ∙ ap (λ (v : View). v.definition_name) q;
  parent_id =
      sym (ap (λ (v : View). v.parent_id) p) ∙ h.parent_id ∙ ap (λ (v : View). v.parent_id) q;
  status = sym (ap (λ (v : View). v.status) p) ∙ h.status ∙ ap (λ (v : View). v.status) q;
  calls = sym (ap (λ (v : View). v.calls) p) ∙ h.calls ∙ ap (λ (v : View). v.calls) q;
  executing =
      sym (ap (λ (v : View). v.executing) p) ∙ h.executing ∙ ap (λ (v : View). v.executing) q;
}

abbrev pub Shown : Option AgentTreeEntry → Option AgentState → Type 0
Shown none none = Unit
Shown (some e) (some a) = Mirrors e a
Shown _ _ = ⊥

-- A call that is done was pending once.
abbrev pub WasPending : String → AgentState → Type 0
WasPending id a = suc (length (without_call id a.pending_tool_calls)) ≡ length a.pending_tool_calls

abbrev pub IsIdle : AgentState → Type 0
IsIdle a =
    (a.status ≡ pending)
    × (length a.pending_tool_calls ≡ 0)
    × (is_some a.executing_tool_call ≡ false)

-- What the runtime keeps to for the agent `b`: a tool that is done was pending once, no tool runs
-- while an inference completes, and a history is spliced between turns.
abbrev pub Orderly : String → EventBody → Option AgentState → Type 0
Orderly b body none = Unit
Orderly b (tool_completed e result) (some a) =
    (e.agent_id =ₛ b) ≡ true → WasPending e.tool_call_id a
Orderly b (tool_failed e error) (some a) = (e.agent_id =ₛ b) ≡ true → WasPending e.tool_call_id a
Orderly b (inference_completed id r m) (some a) =
    (id =ₛ b) ≡ true → is_some a.executing_tool_call ≡ false
Orderly b (agent_conversation_spliced id _ _ _) (some a) = (id =ₛ b) ≡ true → IsIdle a
Orderly b _ (some a) = Unit

abbrev pub OrderlyRun : String → List DomainEvent → Option AgentState → Type 0
OrderlyRun b [] o = Unit
OrderlyRun b (e ∷ es) o =
    Orderly b e.body o × OrderlyRun b es (agent_after (effect e.timestamp e.body) b o)

pub both-Shown :
    (c : Bool) (f : AgentTreeEntry → AgentTreeEntry) (g : AgentState → AgentState)
    (oe : Option AgentTreeEntry) (oa : Option AgentState)
    → ((e : AgentTreeEntry) (a : AgentState)
        → c ≡ true
        → oa ≡ some a
        → Mirrors e a
        → Mirrors (f e) (g a))
    → Shown oe oa
    → Shown (if c then Option.map f oe else oe) (if c then Option.map g oa else oa)
both-Shown false f g oe oa k h = h
both-Shown true f g none none k h = tt
both-Shown true f g (some e) (some a) k h = k e a refl refl h
both-Shown true f g none (some a) k h = absurd h
both-Shown true f g (some e) none k h = absurd h

pub agent_only-Shown :
    (c : Bool) (g : AgentState → AgentState) (oe : Option AgentTreeEntry) (oa : Option AgentState)
    → ((e : AgentTreeEntry) (a : AgentState)
        → c ≡ true
        → oa ≡ some a
        → Mirrors e a
        → Mirrors e (g a))
    → Shown oe oa
    → Shown oe (if c then Option.map g oa else oa)
agent_only-Shown false g oe oa k h = h
agent_only-Shown true g none none k h = tt
agent_only-Shown true g (some e) (some a) k h = k e a refl refl h
agent_only-Shown true g none (some a) k h = absurd h
agent_only-Shown true g (some e) none k h = absurd h

pub entry_only-Shown :
    (c : Bool) (f : AgentTreeEntry → AgentTreeEntry) (oe : Option AgentTreeEntry)
    (oa : Option AgentState)
    → ((e : AgentTreeEntry) (a : AgentState) → Mirrors e a → Mirrors (f e) a)
    → Shown oe oa
    → Shown (if c then Option.map f oe else oe) oa
entry_only-Shown false f oe oa k h = h
entry_only-Shown true f none none k h = tt
entry_only-Shown true f (some e) (some a) k h = k e a h
entry_only-Shown true f none (some a) k h = absurd h
entry_only-Shown true f (some e) none k h = absurd h

pub length-from_llm_tool_calls :
    (calls : List ToolCall) → length (from_llm_tool_calls calls) ≡ length calls
unfolding from_llm_tool_calls
length-from_llm_tool_calls [] = refl
length-from_llm_tool_calls (c ∷ cs) = ap suc (length-from_llm_tool_calls cs)

pub completed_status :
    (s : AgentStatus) (calls : List ToolCall)
    → status_after_inference_completed s (length calls)
      ≡ unless_paused s (if is_empty (from_llm_tool_calls calls) then pending else tool_exec)
unfolding from_llm_tool_calls
completed_status paused calls = refl
completed_status _ [] = refl
completed_status _ (c ∷ cs) = ground arith

pub tool_status :
    (s : AgentStatus) (n : ℕ) (calls : List ToolCall)
    → n ≡ length calls
    → status_after_tool_result s n ≡ unless_paused s (if is_empty calls then pending else tool_exec)
tool_status paused n calls h = refl
tool_status _ n [] h = ground (arith, h)
tool_status _ n (c ∷ cs) h = ground (arith, h)

pub resumed_status :
    (n : ℕ) (calls : List ToolCall)
    → n ≡ length calls
    → status_after_resume n ≡ (if is_empty calls then pending else tool_exec)
resumed_status n [] h = ground (arith, h)
resumed_status n (c ∷ cs) h = ground (arith, h)

pub retried_status : (s : AgentStatus) → status_after_inference_retried s ≡ unless_paused s pending
retried_status paused = refl
retried_status _ = refl
