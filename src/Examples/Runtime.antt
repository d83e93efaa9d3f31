-- ===== src/Examples/Runtime.antt =====
-- The theorems on an agent's runtime, at an agent with a mailbox and a guard that asks for one
-- retry, a provider whose first answer is empty, and one tool.
use roj.Base.{
  ◌+◌, ◌≤◌, ◌≡◌, refl, ◌⊎◌, String, true, false, not, Option, none, some, [], ◌∷◌, if◌then◌else◌,
  ltb, ◌==◌, ◌=ₛ◌, ok, All, is_empty,
}
use roj.Message.{plain}
use roj.Agent.{AgentState, create_agent_state}
use roj.Event.{HandlerName, after_inference, before_tool_call}
use roj.Runtime.{
  Trace, Plugin, Runtime, HookOutcome, raised, returned, retry, InferenceResponse, stop,
}
use roj.Runtime.Dequeue.{is_dequeue_held, has_plugin_pending_messages, collect_plugin_messages}
use roj.Runtime.Dequeue.Gates.{has_plugin_pending_messages-collect}
use roj.Runtime.Request.{user_text, is_empty_stop, ask}
use roj.Runtime.Request.Answer.{requests, requests_for, ask-not_empty}
use roj.Runtime.ToolCalls.{execute_tool_call}
use roj.Runtime.ToolCalls.Outcome.{Stopped, Handled, tool_marks, execute_tool_call-Handled}
use roj.Runtime.Inference.{run_inference}
use roj.Runtime.Inference.Marks.{marks, started, completed, retried, took, noted}
use roj.Runtime.Inference.Bounds.{starts}
use roj.Examples.{metrics, call}

abbrev idle_agent : AgentState
idle_agent = record (create_agent_state "a1" "worker") { on_start_called = true }

abbrev mailbox : Plugin
mailbox = record {
  name = "mailbox";
  hook = λ name. none;
  dequeue = some (record {
    has_pending_messages = λ t. true;
    get_pending_messages = λ t. some (user_text "hello" ∷ [], "m1");
  });
  before_dequeue = none;
  get_status = none;
}

-- `afterInference` asks for a retry once, `beforeToolCall` throws.
abbrev guarded : HandlerName → Option (Trace → HookOutcome)
guarded after_inference =
    some (λ t. if ltb (starts (marks t)) 2 then returned (some retry) else returned none)
guarded before_tool_call = some (λ t. raised)
guarded _ = none

abbrev guard : Plugin
guard = record {
  name = "guard";
  hook = guarded;
  dequeue = none;
  before_dequeue = some (λ t source. false);
  get_status = some (λ t. some "all well");
}

abbrev answer : Option String → InferenceResponse
answer content = record {
  content = content;
  tool_calls = [];
  finish_reason = stop;
  metrics = metrics;
  reasoning_details = none;
  thinking_blocks = none;
}

abbrev pub runtime : Runtime
runtime = record {
  id = "a1";
  plugins = mailbox ∷ guard ∷ [];
  state = λ t. some idle_agent;
  inference = λ t. ok (answer (if requests t == 1 then none else some "Hello."));
  logged_response = none;
  generate_llm_call_id = λ t. "l1";
  find_tool = λ t name. if name =ₛ "read_file" then some (λ input. ok (plain "text")) else none;
  stored_message = λ m. m;
  stored_content = λ c. c;
  result_json = λ x. "{}";
  content_json = λ xs. "[]";
  input_key_json = λ ids tokens. "{}";
  clock = λ t. 100;
  aborted = λ t. false;
  available = λ t. true;
  error_resume_backoff = record { base_delay_ms = none; max_delay_ms = none };
}

-- The turn is retried once, then commits and takes the message.
whole_turn :
    marks (run_inference runtime 3 idle_agent [])
    ≡ noted ∷ took "mailbox" "m1" ∷ completed ∷ started ∷ retried ∷ started ∷ []
unfolding run_inference marks requests create_agent_state
whole_turn = refl

ask-not_empty_example :
    ((v : InferenceResponse) → (ask runtime [] none []).1 ≡ ok v → is_empty_stop v ≡ false)
    × (requests (ask runtime [] none []).0 ≤ requests [] + requests_for none)
ask-not_empty_example = ask-not_empty runtime [] none []

execute_tool_call-Handled_example :
    (Stopped runtime [] × (tool_marks (execute_tool_call runtime (call "c1") []) ≡ tool_marks []))
    ⊎ Handled "c1" (tool_marks []) (tool_marks (execute_tool_call runtime (call "c1") []))
execute_tool_call-Handled_example = execute_tool_call-Handled runtime (call "c1") []

has_plugin_pending_messages-collect_example :
    (has_plugin_pending_messages runtime [] ≡ not (is_empty (collect_plugin_messages runtime [])))
    × All
        (λ d. is_dequeue_held runtime.plugins d.plugin [] ≡ false)
        (collect_plugin_messages runtime [])
has_plugin_pending_messages-collect_example =
    has_plugin_pending_messages-collect runtime [] (refl, (tt, tt))
