-- ===== src/WakeKey/Plugins.antt =====
-- Wake keys of plugins read back, and no key is read as both an agent's and a plugin's.
use roj.Base.{
  if_some, and_true, ◌≡◌, refl, sym, ap, ◌∙◌, subst, ◌↔◌, ◌≢◌, String, true, not, Option, none,
  some, List, [], ◌∷◌, ◌=ₛ◌, ◌+ₛ◌, arith, eq_iff, split, is_part, tail_parts, join, join-split,
  split-join, All-split, All,
}
use roj.Store.Metadata.{is_valid_session_id}
use roj.WakeKey.{
  AgentWake, PluginWake, plugin_wake_key, present, plugin_wake_of, read_plugin_parts,
  parse_agent_wake_key, parse_plugin_wake_key,
}
use roj.WakeKey.RoundTrip.{valid_part, nonempty_iff, AgentParts, read_agent_parts-AgentParts}

-- A name that a key can carry.
pub record IsName (s : String) : Type 0 where
  pub named : s ≢ ""
  pub part : is_part s ≡ true

abbrev pub IsOptionalName : Option String → Type 0
IsOptionalName none = Unit
IsOptionalName (some s) = IsName s

-- What `pluginWakeKey` needs of its arguments for the key to be read back.
pub record IsPluginWake (w : PluginWake) : Type 0 where
  pub valid : is_valid_session_id w.session_id ≡ true
  pub plugin : IsName w.plugin_name
  pub method_name : IsName w.method
  pub agent : IsOptionalName w.agent_id

abbrev optional_part : Option String → List String
optional_part none = []
optional_part (some s) = s ∷ []

IsPart : String → Type 0
IsPart p = is_part p ≡ true

plugin_parts : PluginWake → List String
plugin_parts w = w.session_id ∷ w.plugin_name ∷ w.method ∷ optional_part w.agent_id

plugin_wake_key_lem :
    (s n m : String) (a : Option String)
    → plugin_wake_key s n m a ≡ "plugin" +ₛ tail_parts (s ∷ n ∷ m ∷ optional_part a)
unfolding plugin_wake_key
plugin_wake_key_lem s n m none = refl
plugin_wake_key_lem s n m (some a) = refl

PluginParts : List String → PluginWake → Type 0
PluginParts ps w =
    (ps ≡ "plugin" ∷ plugin_parts w)
    × (is_valid_session_id w.session_id ≡ true)
    × (not (w.plugin_name =ₛ "") ≡ true)
    × (not (w.method =ₛ "") ≡ true)
    × (present w.agent_id ≡ true)

plugin_wake_of-PluginParts :
    (p s n m : String) (a : Option String) (w : PluginWake)
    → plugin_wake_of p s n m a ≡ some w
    → PluginParts (p ∷ s ∷ n ∷ m ∷ optional_part a) w
unfolding PluginParts plugin_parts
plugin_wake_of-PluginParts p s n m a w h =
    let (tests, same) = if_some _ _ w h in
    let (tests3, valid) = and_true _ _ tests in
    let (tests2, there) = and_true _ _ tests3 in
    let (tests1, method_there) = and_true _ _ tests2 in
    let (first, name_there) = and_true _ _ tests1 in
    subst (PluginParts (p ∷ s ∷ n ∷ m ∷ optional_part a)) same (
      ap (λ x. x ∷ s ∷ n ∷ m ∷ optional_part a) ((eq_iff p "plugin").0 first),
      valid,
      name_there,
      method_there,
      there,
    )

read_plugin_parts-PluginParts :
    (ps : List String) (w : PluginWake) → read_plugin_parts ps ≡ some w → PluginParts ps w
unfolding read_plugin_parts
read_plugin_parts-PluginParts [] w h = absurd (ground (arith, h))
read_plugin_parts-PluginParts (p ∷ []) w h = absurd (ground (arith, h))
read_plugin_parts-PluginParts (p ∷ s ∷ []) w h = absurd (ground (arith, h))
read_plugin_parts-PluginParts (p ∷ s ∷ n ∷ []) w h = absurd (ground (arith, h))
read_plugin_parts-PluginParts (p ∷ s ∷ n ∷ m ∷ []) w h = plugin_wake_of-PluginParts p s n m none w h
read_plugin_parts-PluginParts (p ∷ s ∷ n ∷ m ∷ a ∷ []) w h =
    plugin_wake_of-PluginParts p s n m (some a) w h
read_plugin_parts-PluginParts (p ∷ s ∷ n ∷ m ∷ a ∷ _ ∷ _) w h = absurd (ground (arith, h))

agent_name :
    (a : Option String) → present a ≡ true → All IsPart (optional_part a) → IsOptionalName a
unfolding IsPart
agent_name none h hs = tt
agent_name (some a) h hs = record { named = (nonempty_iff a).0 h; part = hs.0 }

agent_there :
    (a : Option String) → IsOptionalName a → (present a ≡ true) × All IsPart (optional_part a)
unfolding IsPart
agent_there none h = (refl, tt)
agent_there (some a) h = ((nonempty_iff a).1 h.named, (h.part, tt))

plugin_wake_of-some :
    (s n m : String) (a : Option String)
    → read_plugin_parts ("plugin" ∷ s ∷ n ∷ m ∷ optional_part a) ≡ plugin_wake_of "plugin" s n m a
unfolding read_plugin_parts
plugin_wake_of-some s n m none = refl
plugin_wake_of-some s n m (some a) = refl

-- A text is read as a plugin's wake exactly when it is the key that `pluginWakeKey` makes of the
-- wake's fields, the session's id is valid, and the plugin's name, the method and the agent's id,
-- when there is one, are not empty and have no colon.
pub parse_plugin_wake_key_iff :
    (key : String) (w : PluginWake)
    → (parse_plugin_wake_key key ≡ some w)
      ↔ ((key ≡ plugin_wake_key w.session_id w.plugin_name w.method w.agent_id) × IsPluginWake w)
unfolding parse_plugin_wake_key PluginParts plugin_parts IsPart
parse_plugin_wake_key_iff key w = (
  λ h.
      let (same, valid, name_there, method_there, there) =
        read_plugin_parts-PluginParts (split key) w h in
      let parts = subst (All IsPart) same (All-split key) in
      let made = plugin_wake_key_lem w.session_id w.plugin_name w.method w.agent_id in
      (
        sym (join-split key) ∙ ap join same ∙ sym made,
        record {
          valid = valid;
          plugin = record { named = (nonempty_iff w.plugin_name).0 name_there; part = parts.1.1.0 };
          method_name = record {
            named = (nonempty_iff w.method).0 method_there;
            part = parts.1.1.1.0;
          };
          agent = agent_name w.agent_id there parts.1.1.1.1;
        },
      ),
  λ h.
      let fits = h.1 in
      let (there, agent_parts) = agent_there w.agent_id fits.agent in
      let parts =
        split-join "plugin" (w.session_id ∷ w.plugin_name ∷ w.method ∷ optional_part w.agent_id)
          refl
          (
            valid_part w.session_id fits.valid,
            (fits.plugin.part, (fits.method_name.part, agent_parts)),
          ) in
      rw
        (
          h.0,
          plugin_wake_key_lem w.session_id w.plugin_name w.method w.agent_id,
          parts,
          plugin_wake_of-some w.session_id w.plugin_name w.method w.agent_id,
          fits.valid,
          there,
          (nonempty_iff w.plugin_name).1 fits.plugin.named,
          (nonempty_iff w.method).1 fits.method_name.named,
        )
        refl,
)

-- No text is read both as an agent's wake and as a plugin's.
pub parse_plugin_wake_key-agent :
    (key : String) (w : AgentWake)
    → parse_agent_wake_key key ≡ some w
    → parse_plugin_wake_key key ≡ none
unfolding parse_agent_wake_key parse_plugin_wake_key AgentParts
parse_plugin_wake_key-agent key w h =
    let (parts, valid, named) = read_agent_parts-AgentParts (split key) w h in
    rw (parts, read_plugin_parts) refl
