-- ===== src/WakeKey.antt =====
-- The routing keys of scheduler wakes, packages/sdk/src/core/wake-key.ts. Identifiers and names
-- are texts; `key.split(':')` is `split`, template literals are joined texts.
pub mod RoundTrip
pub mod Plugins
use roj.Base.{
  String, Bool, true, false, not, ◌&&◌, Option, none, some, List, [], ◌∷◌, if◌then◌else◌, ◌==◌,
  ◌=ₛ◌, ◌+ₛ◌, tail_parts, split,
}
use roj.Store.Metadata.{is_valid_session_id}

pub data AgentWakeKind : Type 0 where
  debounce retry : AgentWakeKind

pub record AgentWake : Type 0 where
  pub session_id : String
  pub agent_id : String
  pub kind : AgentWakeKind

pub record PluginWake : Type 0 where
  pub session_id : String
  pub plugin_name : String
  pub method : String
  pub agent_id : Option String

abbrev pub kind_text : AgentWakeKind → String
kind_text debounce = "debounce"
kind_text retry = "retry"

unfoldable pub agent_wake_key : String → String → AgentWakeKind → String
agent_wake_key session_id agent_id kind =
    "agent" +ₛ tail_parts (session_id ∷ agent_id ∷ kind_text kind ∷ [])

unfoldable pub plugin_wake_key : String → String → String → Option String → String
plugin_wake_key session_id plugin_name method none =
    "plugin" +ₛ tail_parts (session_id ∷ plugin_name ∷ method ∷ [])
plugin_wake_key session_id plugin_name method (some agent_id) =
    "plugin" +ₛ tail_parts (session_id ∷ plugin_name ∷ method ∷ agent_id ∷ [])

abbrev pub read_kind : String → Option AgentWakeKind
read_kind kind =
    if kind =ₛ "debounce" then some debounce else if kind =ₛ "retry" then some retry else none

abbrev pub agent_wake_of : String → String → String → Option AgentWakeKind → Option AgentWake
agent_wake_of prefix session_id agent_id none = none
agent_wake_of prefix session_id agent_id (some kind) =
    if prefix =ₛ "agent" && not (agent_id =ₛ "") && is_valid_session_id session_id
    then some (record { session_id = session_id; agent_id = agent_id; kind = kind })
    else none

unfoldable pub read_agent_parts : List String → Option AgentWake
read_agent_parts (prefix ∷ session_id ∷ agent_id ∷ kind ∷ []) =
    agent_wake_of prefix session_id agent_id (read_kind kind)
read_agent_parts _ = none

unfoldable pub parse_agent_wake_key : String → Option AgentWake
unfolding read_agent_parts
parse_agent_wake_key key = read_agent_parts (split key)

abbrev pub present : Option String → Bool
present none = true
present (some s) = not (s =ₛ "")

abbrev pub plugin_wake_of : String → String → String → String → Option String → Option PluginWake
plugin_wake_of prefix session_id plugin_name method agent_id =
    if prefix =ₛ "plugin"
      && not (plugin_name =ₛ "")
      && not (method =ₛ "")
      && present agent_id
      && is_valid_session_id session_id
    then some (record {
      session_id = session_id;
      plugin_name = plugin_name;
      method = method;
      agent_id = agent_id;
    })
    else none

unfoldable pub read_plugin_parts : List String → Option PluginWake
read_plugin_parts (prefix ∷ session_id ∷ plugin_name ∷ method ∷ []) =
    plugin_wake_of prefix session_id plugin_name method none
read_plugin_parts (prefix ∷ session_id ∷ plugin_name ∷ method ∷ agent_id ∷ []) =
    plugin_wake_of prefix session_id plugin_name method (some agent_id)
read_plugin_parts _ = none

unfoldable pub parse_plugin_wake_key : String → Option PluginWake
unfolding read_plugin_parts
parse_plugin_wake_key key = read_plugin_parts (split key)
