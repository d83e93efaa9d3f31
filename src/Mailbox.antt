-- ===== src/Mailbox.antt =====
-- The plugin packages/sdk/src/plugins/mailbox: the state slice of plugin.ts, query.ts and
-- helpers.ts. A sequence number is read from an id with exact arithmetic.
pub mod Sequence
pub mod Partners
use Prim.Native.Char.{code}
use roj.Base.{
  ℕ, ◌+◌, ◌-◌, ◌*◌, max, String, Bool, true, false, not, ◌&&◌, ◌||◌, Option, none, some, List, [],
  ◌∷◌, ◌++◌, if◌then◌else◌, ◌==◌, ◌=ₛ◌, leb, keep, any, is_empty, Dict, lookup, insert, remove,
  or_zero, get_or,
}
use roj.Agent.{AgentState, truthy}
use roj.Event.{EventBody, mailbox_message, mailbox_consumed, MailboxMessage}
use roj.Session.{SessionState, orchestrator_role, communicator_role}

pub record MailboxState : Type 0 where
  pub agent_mailboxes : Dict (List MailboxMessage)
  pub message_sequence : Option ℕ

abbrev pub empty_mailboxes : MailboxState
empty_mailboxes = record { agent_mailboxes = []; message_sequence = some 0 }

abbrev is_digit : ℕ → Bool
is_digit c = leb b'0' c && leb c b'9'

parse_digits : ℕ → String → Option ℕ
parse_digits n String.[] = some n
parse_digits n (String.◌∷◌ c s) =
    let rest = parse_digits (n * 10 + (code c - b'0')) s in if is_digit (code c) then rest else none

abbrev some_digits : String → Option ℕ
some_digits String.[] = none
some_digits (String.◌∷◌ c s) = parse_digits 0 (String.◌∷◌ c s)

-- `/^m(\d+)$/` with the number that it captures.
unfoldable pub parse_sequence : String → Option ℕ
unfolding parse_digits
parse_sequence String.[] = none
parse_sequence (String.◌∷◌ c s) = if code c == b'm' then some_digits s else none

unfoldable pub deliver : String → Option ℕ → MailboxMessage → MailboxState → MailboxState
deliver to sequence m s = record {
  agent_mailboxes =
      insert to (get_or (lookup to s.agent_mailboxes) [] ++ (m ∷ [])) s.agent_mailboxes;
  message_sequence = some (
      max (max (or_zero s.message_sequence) (or_zero sequence))
        (get_or (parse_sequence m.id) (or_zero s.message_sequence + 1)));
}

abbrev pub remaining : List String → List MailboxMessage → List MailboxMessage
remaining ids = keep λ m. not (any (λ id. id =ₛ m.id) ids)

abbrev pub put_or_delete :
    String → List MailboxMessage → Dict (List MailboxMessage) → Dict (List MailboxMessage)
put_or_delete id [] boxes = remove id boxes
put_or_delete id (m ∷ ms) boxes = insert id (m ∷ ms) boxes

unfoldable pub consume : String → List String → MailboxState → MailboxState
consume id ids s = elim (lookup id s.agent_mailboxes) [
  | none ↦ s
  | some box ↦ record s { agent_mailboxes = put_or_delete id (remaining ids box) s.agent_mailboxes }
]

-- The slice's `reduce`.
unfoldable pub reduce_mailbox : EventBody → MailboxState → MailboxState
unfolding deliver consume
reduce_mailbox (mailbox_message to sequence m) s = deliver to sequence m s
reduce_mailbox (mailbox_consumed id ids) s = consume id ids s
reduce_mailbox _ s = s

unfoldable pub get_agent_mailbox : MailboxState → String → List MailboxMessage
get_agent_mailbox s id = get_or (lookup id s.agent_mailboxes) []

unfoldable pub highest_in : ℕ → List MailboxMessage → ℕ
highest_in h [] = h
highest_in h (m ∷ ms) = highest_in (max h (or_zero (parse_sequence m.id))) ms

unfoldable pub highest_of : ℕ → Dict (List MailboxMessage) → ℕ
unfolding highest_in
highest_of h [] = h
highest_of h ((id, ms) ∷ boxes) = highest_of (highest_in h ms) boxes

unfoldable pub get_next_message_seq : MailboxState → ℕ
unfolding highest_of
get_next_message_seq s = highest_of (or_zero s.message_sequence) s.agent_mailboxes + 1

abbrev pub names : Option String → String → Bool
names none id = false
names (some p) id = p =ₛ id

abbrev pub is_root : AgentState → Bool
is_root a = elim a.parent_id [ none ↦ true | some p ↦ false ]

abbrev pub entry_pair : AgentState → AgentState → Bool
entry_pair a b =
    a.definition_name =ₛ communicator_role && b.definition_name =ₛ orchestrator_role
    || a.definition_name =ₛ orchestrator_role && b.definition_name =ₛ communicator_role

abbrev pub related : String → AgentState → String → AgentState → Bool
related from_id a to_id b =
    names a.parent_id to_id
    || (names b.parent_id from_id || is_root a && is_root b && entry_pair a b)

unfoldable pub can_communicate_with : SessionState → String → String → Bool
can_communicate_with s from_id to_id = elim (lookup from_id s.agents) [
  | none ↦ false
  | some a ↦ elim (lookup to_id s.agents) [ none ↦ false | some b ↦ related from_id a to_id b ]
]

abbrev pub parent_list : Option String → List String
parent_list none = []
parent_list (some p) = p ∷ []

-- The ids of the agents that pass the test, in the map's order.
unfoldable pub agent_ids : (String → AgentState → Bool) → Dict AgentState → List String
agent_ids test [] = []
agent_ids test ((id, a) ∷ agents) =
    let rest = agent_ids test agents in if test id a then id ∷ rest else rest

abbrev pub peers : String → AgentState → Dict AgentState → List String
peers id a agents =
    if is_root a then agent_ids (λ j b. not (j =ₛ id) && is_root b && entry_pair a b) agents else []

unfoldable pub get_communicable_agents : SessionState → String → List String
unfolding agent_ids
get_communicable_agents s id = elim (lookup id s.agents) [
  | none ↦ []
  | some a ↦
      parent_list (truthy a.parent_id)
      ++ (agent_ids (λ j b. names b.parent_id id) s.agents ++ peers id a s.agents)
]
