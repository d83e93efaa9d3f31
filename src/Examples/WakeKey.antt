-- ===== src/Examples/WakeKey.antt =====
-- The theorems on wake keys, at one agent's and one plugin's key.
use roj.Base.{split, ◌≡◌, refl, ◌↔◌, some, none}
use roj.Store.Metadata.{is_valid_session_id}
use roj.WakeKey.{
  retry, AgentWake, PluginWake, agent_wake_key, plugin_wake_key, parse_agent_wake_key,
  parse_plugin_wake_key,
}
use roj.WakeKey.RoundTrip.{IsAgentWake, parse_agent_wake_key_iff}
use roj.WakeKey.Plugins.{IsPluginWake, parse_plugin_wake_key_iff}

abbrev wake : AgentWake
wake = record { session_id = "s-1"; agent_id = "a_2"; kind = retry }

abbrev plugin_wake : PluginWake
plugin_wake = record {
  session_id = "s-1";
  plugin_name = "workers";
  method = "tick";
  agent_id = some "a_2";
}

parse_agent_wake_key_iff_example :
    (parse_agent_wake_key "agent:s-1:a_2:retry" ≡ some wake)
    ↔ (("agent:s-1:a_2:retry" ≡ agent_wake_key "s-1" "a_2" retry) × IsAgentWake wake)
parse_agent_wake_key_iff_example = parse_agent_wake_key_iff "agent:s-1:a_2:retry" wake

parse_plugin_wake_key_iff_example :
    (parse_plugin_wake_key "plugin:s-1:workers:tick:a_2" ≡ some plugin_wake) ↔ (
      ("plugin:s-1:workers:tick:a_2" ≡ plugin_wake_key "s-1" "workers" "tick" (some "a_2"))
      × IsPluginWake plugin_wake)
parse_plugin_wake_key_iff_example =
    parse_plugin_wake_key_iff "plugin:s-1:workers:tick:a_2" plugin_wake

read_agent_key : parse_agent_wake_key "agent:s-1:a_2:retry" ≡ some wake
unfolding parse_agent_wake_key is_valid_session_id split
read_agent_key = refl

read_plugin_key : parse_plugin_wake_key "plugin:s-1:workers:tick:a_2" ≡ some plugin_wake
unfolding parse_plugin_wake_key is_valid_session_id split
read_plugin_key = refl

bad_session_key : parse_agent_wake_key "agent:s/1:a_2:retry" ≡ none
unfolding parse_agent_wake_key is_valid_session_id split
bad_session_key = refl
