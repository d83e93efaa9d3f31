-- ===== src/WakeKey/RoundTrip.antt =====
-- Wake keys read back.
use roj.Base.{
  if_some, and_true, subst, ◌≡◌, refl, sym, ap, ◌∙◌, ◌↔◌, ◌≢◌, String, true, not, Option, none,
  some, List, [], ◌∷◌, ◌=ₛ◌, arith, eq_iff, split, is_part, join, join-split, split-join, All-split,
  all, All,
}
use roj.Store.Metadata.{codes, is_id_char, is_valid_session_id}
use roj.WakeKey.{
  AgentWakeKind, debounce, retry, AgentWake, kind_text, agent_wake_key, read_kind, agent_wake_of,
  read_agent_parts, parse_agent_wake_key,
}

-- What `agentWakeKey` needs of its arguments for the key to be read back.
pub record IsAgentWake (w : AgentWake) : Type 0 where
  pub valid : is_valid_session_id w.session_id ≡ true
  pub named : w.agent_id ≢ ""
  pub part : is_part w.agent_id ≡ true

id_chars_part : (s : String) → all is_id_char (codes s) ≡ true → is_part s ≡ true
id_chars_part String.[] h = refl
id_chars_part (String.◌∷◌ c s) h =
    let ih = id_chars_part s (ground (arith, h)) in ground (arith, h, ih)

pub valid_part : (id : String) → is_valid_session_id id ≡ true → is_part id ≡ true
unfolding is_valid_session_id
valid_part id h = id_chars_part id (ground (arith, h))

kind_text_part : (k : AgentWakeKind) → is_part (kind_text k) ≡ true
kind_text_part debounce = refl
kind_text_part retry = refl

read_kind-kind_text : (k : AgentWakeKind) → read_kind (kind_text k) ≡ some k
read_kind-kind_text debounce = refl
read_kind-kind_text retry = refl

kind_text-read_kind : (s : String) (k : AgentWakeKind) → read_kind s ≡ some k → kind_text k ≡ s
kind_text-read_kind s debounce h = ground (arith, h, eq_iff s "debounce", eq_iff s "retry")
kind_text-read_kind s retry h = ground (arith, h, eq_iff s "debounce", eq_iff s "retry")

pub nonempty_iff : (s : String) → (not (s =ₛ "") ≡ true) ↔ (s ≢ "")
nonempty_iff s = ground (arith, eq_iff s "")

unfoldable pub AgentParts : List String → AgentWake → Type 0
AgentParts ps w =
    (ps ≡ "agent" ∷ w.session_id ∷ w.agent_id ∷ kind_text w.kind ∷ [])
    × (is_valid_session_id w.session_id ≡ true)
    × (w.agent_id ≢ "")

agent_wake_of-AgentParts :
    (p s a k : String) (o : Option AgentWakeKind) (w : AgentWake)
    → read_kind k ≡ o
    → agent_wake_of p s a o ≡ some w
    → AgentParts (p ∷ s ∷ a ∷ k ∷ []) w
unfolding AgentParts
agent_wake_of-AgentParts p s a k none w q h = absurd (ground (arith, h))
agent_wake_of-AgentParts p s a k (some kind) w q h =
    let (tests, same) = if_some _ _ w h in
    let (names, valid) = and_true _ _ tests in
    let (first, there) = and_true _ _ names in
    subst (AgentParts (p ∷ s ∷ a ∷ k ∷ [])) same (
      rw ((eq_iff p "agent").0 first, kind_text-read_kind k kind q) refl,
      valid,
      (nonempty_iff a).0 there,
    )

pub read_agent_parts-AgentParts :
    (ps : List String) (w : AgentWake) → read_agent_parts ps ≡ some w → AgentParts ps w
unfolding read_agent_parts
read_agent_parts-AgentParts [] w h = absurd (ground (arith, h))
read_agent_parts-AgentParts (p ∷ []) w h = absurd (ground (arith, h))
read_agent_parts-AgentParts (p ∷ s ∷ []) w h = absurd (ground (arith, h))
read_agent_parts-AgentParts (p ∷ s ∷ a ∷ []) w h = absurd (ground (arith, h))
read_agent_parts-AgentParts (p ∷ s ∷ a ∷ k ∷ []) w h =
    agent_wake_of-AgentParts p s a k (read_kind k) w refl h
read_agent_parts-AgentParts (p ∷ s ∷ a ∷ k ∷ _ ∷ _) w h = absurd (ground (arith, h))

-- A text is read as an agent's wake exactly when it is the key that `agentWakeKey` makes of the
-- wake's session, agent and kind, the session's id is valid, and the agent's id is not empty and
-- has no colon.
pub parse_agent_wake_key_iff :
    (key : String) (w : AgentWake)
    → (parse_agent_wake_key key ≡ some w)
      ↔ ((key ≡ agent_wake_key w.session_id w.agent_id w.kind) × IsAgentWake w)
unfolding parse_agent_wake_key agent_wake_key AgentParts
parse_agent_wake_key_iff key w = (
  λ h.
      let (parts, valid, named) = read_agent_parts-AgentParts (split key) w h in
      (
        sym (join-split key) ∙ ap join parts,
        record {
          valid = valid;
          named = named;
          part = (subst (All λ p. is_part p ≡ true) parts (All-split key)).1.1.0;
        },
      ),
  λ h.
      let fits = h.1 in
      let parts =
        split-join "agent" (w.session_id ∷ w.agent_id ∷ kind_text w.kind ∷ []) refl
          (valid_part w.session_id fits.valid, (fits.part, (kind_text_part w.kind, tt))) in
      rw
        (
          h.0,
          parts,
          read_agent_parts,
          read_kind-kind_text w.kind,
          fits.valid,
          (nonempty_iff w.agent_id).1 fits.named,
        )
        refl,
)
