-- ===== src/Limits/Counters.antt =====
-- The state slice of limits-guard/plugin.ts. The fingerprints of lib/utils/hash.ts are arguments.
use Prim.Native.Char.{code}
use roj.Base.{
  ℕ, ◌+◌, ◌-◌, String, Bool, true, false, not, ◌&&◌, ◌||◌, Option, none, some, List, [], ◌∷◌, ◌++◌,
  if◌then◌else◌, ◌==◌, ◌=ₛ◌, leb, is_empty, all, drop, length, Dict, lookup, insert, remove,
  or_zero, get_or,
}
use roj.Message.{Json, ToolCall}
use roj.Agent.{LlmMetrics, AgentState, PendingToolResult, truthy}
use roj.Event.{
  EventBody, agent_spawned, mailbox_message, agent_input_consumed, inference_completed,
  auxiliary_inference_completed, context_compacted, tool_started, tool_completed, tool_failed,
  agent_resumed, LlmResponse,
}
use roj.Session.{SessionState}
use roj.Limits.{AgentCounters, Failures, create_agent_counters}

-- `xs.slice(-n)`
abbrev pub slice_last : ℕ → List String → List String
slice_last n xs = drop (length xs - n) xs

abbrev is_outbound : ToolCall → Bool
is_outbound tc = tc.name =ₛ "send_message" || tc.name =ₛ "tell_user"

unfoldable pub is_outbound_communication_only : List ToolCall → Bool
is_outbound_communication_only calls = not (is_empty calls) && all is_outbound calls

-- A character that `\s` matches.
abbrev is_space : ℕ → Bool
is_space c =
    leb 9 c && leb c 13
    || c == 32
    || c == 160
    || c == 5760
    || leb 8192 c && leb c 8202
    || c == 8232
    || c == 8233
    || c == 8239
    || c == 8287
    || c == 12288
    || c == 65279

abbrev only_spaces : String → Bool
only_spaces String.[] = true
only_spaces (String.◌∷◌ c s) = is_space (code c) && only_spaces s

-- The text begins with the word and goes on with spaces only.
abbrev word_then_spaces : String → String → Bool
word_then_spaces String.[] s = only_spaces s
word_then_spaces (String.◌∷◌ d word) String.[] = false
word_then_spaces (String.◌∷◌ d word) (String.◌∷◌ c s) = code d == code c && word_then_spaces word s

-- `/^\s*WAITING\s*$/`
unfoldable pub is_waiting : String → Bool
is_waiting String.[] = false
is_waiting (String.◌∷◌ c s) =
    let rest = is_waiting s in
    if is_space (code c) then rest else word_then_spaces "WAITING" (String.◌∷◌ c s)

abbrev name_of_result : String → List PendingToolResult → String
name_of_result id [] = "unknown"
name_of_result id (r ∷ results) =
    if r.tool_call_id =ₛ id then r.tool_name else name_of_result id results

abbrev name_in : Option AgentState → String → String
name_in none id = "unknown"
name_in (some a) id = name_of_result id a.pending_tool_results

unfoldable pub resolve_tool_name : SessionState → String → String → String
resolve_tool_name s agent_id call_id = name_in (lookup agent_id s.agents) call_id

abbrev pub spend : LlmMetrics → AgentCounters → AgentCounters
spend u c = record c {
  cost_spent = c.cost_spent + or_zero u.cost;
  tokens_used = c.tokens_used + u.total_tokens;
}

unfoldable pub tool_succeeded : String → AgentCounters → AgentCounters
tool_succeeded name c = record c {
  consecutive_tool_failures = remove name c.consecutive_tool_failures;
  counted_tool_call_id = none;
}

abbrev failures_of : Option Failures → ℕ
failures_of none = 0
failures_of (some f) = f.count

unfoldable pub tool_has_failed : String → String → AgentCounters → AgentCounters
tool_has_failed name error c = record c {
  consecutive_tool_failures =
      insert name
        (record {
          count = failures_of (lookup name c.consecutive_tool_failures) + 1;
          last_error = error;
        })
        c.consecutive_tool_failures;
  counted_tool_call_id = none;
}

unfoldable pub on_resumed : AgentCounters → AgentCounters
on_resumed c = record c {
  inference_count = 0;
  tool_call_count = 0;
  spawned_agent_count = 0;
  messages_sent_count = 0;
  consecutive_no_progress_turns = 0;
  compaction_count = 0;
  consecutive_tool_failures = [];
  recent_tool_call_hashes = [];
  recent_response_hashes = [];
}

-- The counters of an agent that has some.
abbrev pub with_counters :
    String → (AgentCounters → AgentCounters) → Dict AgentCounters → Dict AgentCounters
with_counters id f limits = elim (lookup id limits) [
  | none ↦ limits
  | some c ↦ insert id (f c) limits
]

abbrev pub with_parent :
    Option String → (AgentCounters → AgentCounters) → Dict AgentCounters → Dict AgentCounters
with_parent none f limits = limits
with_parent (some id) f limits = with_counters id f limits

abbrev counted_already : Option String → String → Bool
counted_already none id = false
counted_already (some counted) id = counted =ₛ id

abbrev pub one_spawned : AgentCounters → AgentCounters
one_spawned c = record c { spawned_agent_count = c.spawned_agent_count + 1 }

abbrev pub one_sent : AgentCounters → AgentCounters
one_sent c = record c { messages_sent_count = c.messages_sent_count + 1 }

abbrev pub one_compaction : AgentCounters → AgentCounters
one_compaction c = record c { compaction_count = c.compaction_count + 1 }

abbrev pub progressed : AgentCounters → AgentCounters
progressed c = record c { consecutive_no_progress_turns = 0 }

module _ (response_fingerprint : Option String → String)
    (tool_call_fingerprint : String → Json → String) where
  unfoldable pub add_response : LlmResponse → List String → List String
  add_response r hashes =
      if is_empty r.tool_calls && not (is_waiting (get_or r.content ""))
      then slice_last 10 (hashes ++ (response_fingerprint r.content ∷ []))
      else hashes

  unfoldable pub on_inference : LlmResponse → LlmMetrics → AgentCounters → AgentCounters
  unfolding add_response
  on_inference r u c = record (spend u c) {
    inference_count = c.inference_count + 1;
    consecutive_no_progress_turns =
        if is_outbound_communication_only r.tool_calls
        then c.consecutive_no_progress_turns + 1
        else 0;
    recent_response_hashes = add_response r c.recent_response_hashes;
  }

  unfoldable pub on_started : String → String → Json → AgentCounters → AgentCounters
  on_started call_id name input c =
      if counted_already c.counted_tool_call_id call_id then c else record c {
        tool_call_count = c.tool_call_count + 1;
        counted_tool_call_id = some call_id;
        recent_tool_call_hashes =
            slice_last 20 (c.recent_tool_call_hashes ++ (tool_call_fingerprint name input ∷ []));
      }

  -- The slice's `reduce`; the session's state is the one after the core reducer.
  unfoldable pub reduce_limits : SessionState → EventBody → Dict AgentCounters → Dict AgentCounters
  reduce_limits s (agent_spawned id name parent input) limits =
      with_parent (truthy parent) one_spawned (insert id create_agent_counters limits)
  reduce_limits s (mailbox_message to sequence m) limits =
      if m.sender =ₛ "user" || m.sender =ₛ ""
      then limits
      else with_counters m.sender one_sent limits
  reduce_limits s (agent_input_consumed id plugins) limits = with_counters id progressed limits
  reduce_limits s (inference_completed id r u) limits = with_counters id (on_inference r u) limits
  reduce_limits s (auxiliary_inference_completed id u) limits = with_counters id (spend u) limits
  reduce_limits s (context_compacted id history) limits = with_counters id one_compaction limits
  reduce_limits s (tool_started id call name input) limits =
      with_counters id (on_started call name input) limits
  reduce_limits s (tool_completed e result) limits =
      with_counters e.agent_id (tool_succeeded (resolve_tool_name s e.agent_id e.tool_call_id))
        limits
  reduce_limits s (tool_failed e error) limits =
      with_counters e.agent_id
        (tool_has_failed (resolve_tool_name s e.agent_id e.tool_call_id) error) limits
  reduce_limits s (agent_resumed id) limits = with_counters id on_resumed limits
  reduce_limits s _ limits = limits
