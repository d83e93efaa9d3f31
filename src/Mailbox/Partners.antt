-- ===== src/Mailbox/Partners.antt =====
-- Who may write to whom.
use roj.Base.{
  ◌≡◌, refl, sym, ap, ◌∙◌, String, Bool, true, false, not, ◌&&◌, ◌||◌, Option, none, some, List, [],
  ◌∷◌, ◌++◌, ◌=ₛ◌, any, get_or, Dict, lookup, arith, Bool-cases, Option-cases, inl, inr, eq_iff,
}
use roj.Agent.{AgentState, truthy}
use roj.Session.{SessionState, orchestrator_role, communicator_role}
use roj.Mailbox.{
  related, names, is_root, entry_pair, parent_list, peers, can_communicate_with, agent_ids,
  get_communicable_agents,
}

or_swap : (x y z w : Bool) → z ≡ w → (x || (y || z)) ≡ (y || (x || w))
or_swap true true z w h = refl
or_swap true false z w h = refl
or_swap false true z w h = refl
or_swap false false z w h = h

and_swap : (x y z w : Bool) → z ≡ w → (x && y && z) ≡ (y && x && w)
and_swap true true z w h = h
and_swap true false z w h = refl
and_swap false true z w h = refl
and_swap false false z w h = refl

and_comm : (x y : Bool) → (x && y) ≡ (y && x)
and_comm true true = refl
and_comm true false = refl
and_comm false true = refl
and_comm false false = refl

or_comm : (x y : Bool) → (x || y) ≡ (y || x)
or_comm true true = refl
or_comm true false = refl
or_comm false true = refl
or_comm false false = refl

entry_pair_comm : (a b : AgentState) → entry_pair a b ≡ entry_pair b a
entry_pair_comm a b =
    let ac = a.definition_name =ₛ communicator_role in
    let ao = a.definition_name =ₛ orchestrator_role in
    let bc = b.definition_name =ₛ communicator_role in
    let bo = b.definition_name =ₛ orchestrator_role in
    or_comm (ac && bo) (ao && bc) ∙ rw (and_comm ao bc, and_comm ac bo)

roots_comm :
    (a b : AgentState)
    → (is_root a && is_root b && entry_pair a b) ≡ (is_root b && is_root a && entry_pair b a)
roots_comm a b = and_swap (is_root a) (is_root b) _ _ (entry_pair_comm a b)

related_comm : (i j : String) (a b : AgentState) → related i a j b ≡ related j b i a
related_comm i j a b = or_swap (names a.parent_id j) (names b.parent_id i) _ _ (roots_comm a b)

-- Two agents may write to each other or neither may.
pub can_communicate_with_comm :
    (s : SessionState) (i j : String) → can_communicate_with s i j ≡ can_communicate_with s j i
unfolding can_communicate_with
can_communicate_with_comm s i j = elim (Option-cases (lookup i s.agents)) [
  | inl n ↦ elim (Option-cases (lookup j s.agents)) [
    | inl k ↦ rw (can_communicate_with, n, k)
    | inr (b, k) ↦ rw (can_communicate_with, n, k, n)
  ]
  | inr (a, n) ↦ elim (Option-cases (lookup j s.agents)) [
    | inl k ↦ rw (can_communicate_with, n, k)
    | inr (b, k) ↦ rw (can_communicate_with, n, k, n) (related_comm i j a b)
  ]
]

abbrev pub Distinct : Dict AgentState → Type 0
Distinct [] = Unit {0}
Distinct ((id, a) ∷ agents) = (lookup id agents ≡ none) × Distinct agents

any-agent_ids_absent :
    (test : String → AgentState → Bool) (j : String) (agents : Dict AgentState)
    → lookup j agents ≡ none
    → any (λ x. x =ₛ j) (agent_ids test agents) ≡ false
unfolding agent_ids lookup
any-agent_ids_absent test j [] n = refl
any-agent_ids_absent test j ((id, a) ∷ agents) n = elim (Bool-cases (id =ₛ j)) [
  | inl e ↦ cc (rw e at n)
  | inr e ↦
      let rest = any-agent_ids_absent test j agents (rw e at n) in
      elim (Bool-cases (test id a)) [ inl t ↦ rw (t, e, rest) | inr t ↦ rw (t, rest) ]
]

some_inj : {a b : AgentState} → some a ≡ some b → a ≡ b
some_inj {a = a} h = ap (λ o. get_or o a) h

any-agent_ids :
    (test : String → AgentState → Bool) (j : String) (b : AgentState) (agents : Dict AgentState)
    → Distinct agents
    → lookup j agents ≡ some b
    → any (λ x. x =ₛ j) (agent_ids test agents) ≡ test j b
unfolding agent_ids lookup
any-agent_ids test j b [] d n = cc
any-agent_ids test j b ((id, a) ∷ agents) d n = elim (Bool-cases (id =ₛ j)) [
  | inl e ↦
      let same : id ≡ j = (eq_iff id j).0 e in
      let found : a ≡ b = some_inj (rw e at n) in
      let rest = any-agent_ids_absent test j agents (rw (← same) d.0) in
      let mine : test id a ≡ test j b = rw (same, found) in
      elim (Bool-cases (test id a)) [
        | inl t ↦ rw (t, e) (sym t ∙ mine)
        | inr t ↦ rw (t, rest) (sym t ∙ mine)
      ]
  | inr e ↦
      let rest = any-agent_ids test j b agents d.1 (rw e at n) in
      elim (Bool-cases (test id a)) [ inl t ↦ rw (t, e, rest) | inr t ↦ rw (t, rest) ]
]

any-append : (p : String → Bool) (xs ys : List String) → any p (xs ++ ys) ≡ (any p xs || any p ys)
any-append p [] ys = refl
any-append p (x ∷ xs) ys = ground (arith, any-append p xs ys)

any-parent_list :
    (j : String) (o : Option String)
    → truthy o ≡ o
    → any (λ x. x =ₛ j) (parent_list (truthy o)) ≡ names o j
any-parent_list j o h = rw h (go o)
  where
    go : (p : Option String) → any (λ x. x =ₛ j) (parent_list p) ≡ names p j
    go none = refl
    go (some p) = ground arith

any-peers :
    (i j : String) (a b : AgentState) (agents : Dict AgentState)
    → Distinct agents
    → lookup j agents ≡ some b
    → (j =ₛ i) ≡ false
    → any (λ x. x =ₛ j) (peers i a agents) ≡ (is_root a && is_root b && entry_pair a b)
any-peers i j a b agents d found other =
    let listed =
      any-agent_ids (λ k c. not (k =ₛ i) && is_root c && entry_pair a c) j b agents d found in
    elim (Bool-cases (is_root a)) [ inl r ↦ rw (r, listed, other) | inr r ↦ rw r ]

-- Where ids are distinct and the parent's id, if any, is not empty, the agents listed as those that
-- an agent may write to are exactly the other agents of the session that it may write to.
pub get_communicable_agents-can_communicate_with :
    (s : SessionState) (i j : String) (a b : AgentState)
    → Distinct s.agents
    → lookup i s.agents ≡ some a
    → lookup j s.agents ≡ some b
    → (j =ₛ i) ≡ false
    → truthy a.parent_id ≡ a.parent_id
    → any (λ x. x =ₛ j) (get_communicable_agents s i) ≡ can_communicate_with s i j
unfolding get_communicable_agents can_communicate_with
get_communicable_agents-can_communicate_with s i j a b d from to other named =
    let children = agent_ids (λ k c. names c.parent_id i) s.agents in
    let partners = children ++ peers i a s.agents in
    let listed =
      any-append (λ x. x =ₛ j) (parent_list (truthy a.parent_id)) partners
      ∙ rw (
        any-parent_list j a.parent_id named,
        any-append (λ x. x =ₛ j) children (peers i a s.agents),
        any-agent_ids (λ k c. names c.parent_id i) j b s.agents d to,
        any-peers i j a b s.agents d to other,
      ) in
    rw (get_communicable_agents, can_communicate_with, from, to) listed
