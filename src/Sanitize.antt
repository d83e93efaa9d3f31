-- ===== src/Sanitize.antt =====
-- packages/sdk/src/core/agents/response-sanitizer.ts. Texts are walked character by character;
-- `trimEnd` and `\s` know the white space of JavaScript.
pub mod Tags
pub mod Laws
use Prim.Native.Char.{code}
use roj.Base.{
  is_some, ℕ, String, Bool, true, false, not, ◌&&◌, ◌||◌, Option, none, some, if◌then◌else◌, ◌==◌,
  leb, ◌=ₛ◌, ◌+ₛ◌, get_or,
}

pub record SanitizedResponse : Type 0 where
  pub content : Option String
  pub was_truncated : Bool

-- Tab to carriage return, the space, U+00A0, U+1680, U+2000 to U+200A, U+2028, U+2029, U+202F,
-- U+205F, U+3000 and U+FEFF.
abbrev pub is_space : ℕ → Bool
is_space c =
    leb 9 c && leb c 13
    || c == 32
    || c == 160
    || c == 5760
    || leb 8192 c && leb c 8202
    || c == 8232
    || c == 8233
    || c == 8239
    || c == 8287
    || c == 12288
    || c == 65279

unfoldable pub is_blank : String → Bool
is_blank String.[] = true
is_blank (String.◌∷◌ c s) = is_space (code c) && is_blank s

unfoldable pub trim_end : String → String
unfolding is_blank
trim_end String.[] = ""
trim_end (String.◌∷◌ c s) =
    let rest = trim_end s in if is_space (code c) && is_blank s then "" else String.◌∷◌ c rest

-- The text after a prefix, if it is one.
unfoldable pub after_prefix : String → String → Option String
after_prefix String.[] s = some s
after_prefix (String.◌∷◌ c p) String.[] = none
after_prefix (String.◌∷◌ c p) (String.◌∷◌ d s) =
    let rest = after_prefix p s in if code c == code d then rest else none

-- `<message` stands at the beginning.
unfoldable pub at_tag : String → Bool
unfolding after_prefix
at_tag s = is_some (after_prefix "<message" s)

-- A character in front of what was kept.
abbrev pub behind : String → Option String → Option String
behind c none = none
behind c (some kept) = some (c +ₛ kept)

-- The text before the first `<message`, if it occurs.
unfoldable pub before_tag : String → Option String
unfolding at_tag
before_tag String.[] = none
before_tag (String.◌∷◌ c s) =
    let rest = before_tag s in
    if at_tag (String.◌∷◌ c s) then some "" else behind (String.◌∷◌ c String.[]) rest

-- The white space that a text opens with ends in a line's end, or the text ends with it.
unfoldable pub line_ends : String → Bool
line_ends String.[] = true
line_ends (String.◌∷◌ c s) =
    let rest = line_ends s in if code c == 10 then true else is_space (code c) && rest

-- A character in front of a match.
abbrev pub before_match : String → Option (String × String) → Option (String × String)
before_match c none = none
before_match c (some (head, rest)) = some (c +ₛ head, rest)

abbrev pub waiting_then : Option String → Option (String × String)
waiting_then none = none
waiting_then (some rest) = if line_ends rest then some ("WAITING", rest) else none

-- After a line's end: white space and `WAITING` at the end of its line, with what follows.
unfoldable pub waiting_line : String → Option (String × String)
unfolding after_prefix line_ends
waiting_line String.[] = none
waiting_line (String.◌∷◌ c s) =
    let later = waiting_line s in
    if is_space (code c)
    then before_match (String.◌∷◌ c String.[]) later
    else waiting_then (after_prefix "WAITING" (String.◌∷◌ c s))

abbrev pub first_match :
    Option (String × String) → Option (String × String) → Option (String × String)
first_match none later = later
first_match (some here) later = some here

-- The first match of `/\n\s*WAITING\s*(?:\n|$)/`: the text up to and with `WAITING`, and the rest.
unfoldable pub find_waiting : String → Option (String × String)
unfolding waiting_line
find_waiting String.[] = none
find_waiting (String.◌∷◌ c s) =
    let later = find_waiting s in
    let here = if code c == 10 then waiting_line s else none in
    before_match (String.◌∷◌ c String.[]) (first_match here later)

-- The first step, then the second one.
abbrev pub cut_tag : String → String × Bool
cut_tag content = elim (before_tag content) [
  | none ↦ (content, false)
  | some kept ↦ (trim_end kept, true)
]

abbrev pub cut_waiting : String × Bool → String × Bool
cut_waiting (text, cut) = elim (find_waiting text) [
  | none ↦ (text, cut)
  | some found ↦ if is_blank found.1 then (text, cut) else (found.0, true)
]

abbrev pub non_empty : String → Option String
non_empty s = if s =ₛ "" then none else some s

unfoldable pub sanitize_llm_response : Option String → SanitizedResponse
unfolding before_tag trim_end find_waiting is_blank
sanitize_llm_response none = record { content = none; was_truncated = false }
sanitize_llm_response (some content) =
    let (text, cut) = cut_waiting (cut_tag content) in
    record { content = non_empty text; was_truncated = cut }
