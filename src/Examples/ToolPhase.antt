-- ===== src/Examples/ToolPhase.antt =====
-- The theorems on rounds, at an agent with two pending calls and at one that starts.
use roj.Base.{◌≡◌, refl, ◌⊎◌, inl, false, some, [], ◌∷◌}
use roj.Runtime.{Runtime}
use roj.Runtime.ToolCalls.{execute_tool_call}
use roj.Runtime.ToolCalls.Outcome.{Stopped}
use roj.Agent.{AgentState, AgentStatus}
use roj.Agent.Loop.{Decision, decide}
use roj.Runtime.Dequeue.{has_plugin_pending_messages}
use roj.Runtime.Continue.{tool_round, round}
use roj.Runtime.Continue.Moves.{Moved, round-Moved}
use roj.Runtime.Continue.ToolPhase.{pending_calls}
use roj.Runtime.Continue.Progress.{ToolRound, tool_round-ToolRound}
use roj.Runtime.Replayed.{replay, Replays}
use roj.Examples.{busy, call}
use roj.Examples.Runtime.{runtime}

abbrev replayed : Runtime
replayed = record runtime { state = replay "a1" (λ t. 100) (some busy) }

replayed-Replays : Replays replayed (some busy)
replayed-Replays = record { law = λ t. refl }

two_calls : pending_calls replayed (some busy) [] ≡ call "c1" ∷ call "c2" ∷ []
unfolding replay
two_calls = refl

tool_round-ToolRound_example :
    Stopped replayed []
    ⊎ ((pending_calls replayed (some busy) (execute_tool_call replayed (call "c1") [])
          ≡ call "c2" ∷ [])
        × ToolRound replayed
            (call "c2" ∷ [])
            (execute_tool_call replayed (call "c1") [])
            (tool_round replayed (call "c1" ∷ call "c2" ∷ []) []))
tool_round-ToolRound_example =
    tool_round-ToolRound replayed (some busy) [] (call "c1") (call "c2" ∷ []) replayed-Replays
      two_calls (refl, tt)

abbrev spawned : AgentState
spawned = record busy { status = AgentStatus.pending; on_start_called = false }

abbrev starting : Runtime
starting = record runtime { state = replay "a1" (λ t. 100) (some spawned) }

starting-Replays : Replays starting (some spawned)
starting-Replays = record { law = λ t. refl }

is_spawned : starting.state [] ≡ some spawned
unfolding replay
is_spawned = refl

starts_first : decide spawned (has_plugin_pending_messages starting []) ≡ Decision.on_start
unfolding decide
starts_first = refl

round-Moved_example :
    Moved starting spawned []
      (decide spawned (has_plugin_pending_messages starting []))
      (round starting [])
round-Moved_example =
    round-Moved starting (some spawned) [] spawned starting-Replays refl is_spawned
      (inl starts_first)
