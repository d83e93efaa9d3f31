-- ===== src/DebugStore/Shows.antt =====
-- The debug interface's agent tree, over the whole way from the log of a store to the projections.
use roj.Base.{
  ℕ, ◌+◌, ◌≤◌, ◌≡◌, refl, sym, subst, ap, ◌∙◌, String, true, Option, none, some, List, [], ◌∷◌,
  length, keep_all, Dict, lookup, ok,
}
use roj.Event.{DomainEvent}
use roj.Session.{SessionState}
use roj.Session.Reducer.{reconstruct_session_state}
use roj.AgentTree.{AgentTreeEntry, apply_event_to_agent_tree, agent_tree}
use roj.AgentTree.Mirror.{Shown, OrderlyRun}
use roj.AgentTree.Conformance.{agent_tree-Shown}
use roj.Store.Contract.{EventReader}
use roj.DebugStore.{EventStoreState, Views, apply_all}
use roj.DebugStore.Follows.{Begins, Follows}
use roj.DebugStore.Watch.{polls, polls-caught_up}

-- One of the projections is the agent tree.
pub record HasTree {P : Type 0} (v : Views DomainEvent P) : Type 0 where
  pub tree : P → Dict AgentTreeEntry
  pub tree_of_initial : tree v.initial ≡ []
  pub tree_of_applied :
      (p : P) (e : DomainEvent)
      → tree (v.apply_event p e) ≡ apply_event_to_agent_tree (tree p) e.body
  pub knows_all : (e : DomainEvent) → v.is_domain_event e ≡ true

module _ {P : Type 0} (v : Views DomainEvent P) (t : HasTree v) where
  tree-apply_all :
      (p : P) (es : List DomainEvent) → t.tree (apply_all v p es) ≡ agent_tree (t.tree p) es
  unfolding apply_all agent_tree
  tree-apply_all p [] = refl
  tree-apply_all p (e ∷ es) =
      tree-apply_all (v.apply_event p e) es ∙ ap (λ d. agent_tree d es) (t.tree_of_applied p e)

  -- From a state that follows a log, after as many polls as there are events that it has not
  -- reached, the agent tree of the debug interface mirrors the session that the reducer rebuilds from
  -- that log, agent by agent: the events came through a store, the pages of `getEvents` and the
  -- polls. The log begins with the creation of its session and is orderly for the agent, as the
  -- tree alone asks for, the interface knows all its events, and the log stays as it is meanwhile.
  pub tree-Shown :
      (type_of : DomainEvent → String) (agent_of : DomainEvent → Option String)
      → (reader : EventReader DomainEvent) (n : ℕ) (log : reader.Log) (es : List DomainEvent)
      → (s : EventStoreState DomainEvent P) (state : SessionState) (id : String) → reader.Has log es
      → Begins v es
      → (h : Follows v es s) → length es ≤ n + h.seen
      → reconstruct_session_state es ≡ ok (some state)
      → OrderlyRun id es none
      → Shown
          (lookup id (t.tree (polls v type_of agent_of reader n log s).projections))
          (lookup id state.agents)
  tree-Shown type_of agent_of reader n log es s state id has begins h i rebuilt orderly =
      let now = polls v type_of agent_of reader n log s in
      let (_, _, made) = polls-caught_up v type_of agent_of reader n log es s has begins h i in
      let same : t.tree now.projections ≡ agent_tree [] es =
        ap t.tree (made ∙ ap (apply_all v v.initial) (keep_all v.is_domain_event es t.knows_all))
        ∙ tree-apply_all v.initial es
        ∙ ap (λ d. agent_tree d es) t.tree_of_initial in
      subst (λ d. Shown (lookup id d) (lookup id state.agents)) (sym same)
        (agent_tree-Shown es state id rebuilt orderly)
