-- ===== src/Sanitize/Laws.antt =====
-- A sanitized response is a beginning of the response, and has no tag in it.
use Prim.Native.Char.{code, Char}
use mathlib.Core.Option.{some-injective}
use roj.Base.{
  ◌≡◌, refl, ap, subst, String, Bool, Option, none, some, ◌==◌, ◌=ₛ◌, ◌+ₛ◌, arith, Option-cases,
  Bool-cases, inl, inr,
}
use roj.Sanitize.{
  is_space, is_blank, after_prefix, before_tag, line_ends, waiting_line, before_match, waiting_then,
  first_match, find_waiting, cut_tag, cut_waiting, non_empty, sanitize_llm_response,
}
use roj.Sanitize.Tags.{
  Begins, whole, Begins-trans, trim_end-Begins, after_prefix-joined, Untagged, shorter-Untagged,
  before_tag-free,
}

-- The text and the two parts of a match.
Splits : String → Option (String × String) → Type 0
Splits s none = Unit
Splits s (some (head, rest)) = s ≡ head +ₛ rest

before_match-Splits :
    (c : Char) (s : String) (o : Option (String × String))
    → Splits s o
    → Splits (String.◌∷◌ c s) (before_match (String.◌∷◌ c String.[]) o)
unfolding Splits
before_match-Splits c s none h = tt
before_match-Splits c s (some (head, rest)) h = ap (λ x. String.◌∷◌ c x) h

waiting_then-Splits :
    (s : String) (o : Option String) → after_prefix "WAITING" s ≡ o → Splits s (waiting_then o)
unfolding Splits
waiting_then-Splits s none h = tt
waiting_then-Splits s (some rest) h = elim (Bool-cases (line_ends rest)) [
  | inl e ↦ rw (waiting_then, e) (after_prefix-joined "WAITING" s rest h)
  | inr e ↦ rw (waiting_then, e) tt
]

waiting_line-Splits : (s : String) → Splits s (waiting_line s)
unfolding waiting_line Splits
waiting_line-Splits String.[] = tt
waiting_line-Splits (String.◌∷◌ c s) = elim (Bool-cases (is_space (code c))) [
  | inl e ↦ rw (waiting_line, e) (before_match-Splits c s (waiting_line s) (waiting_line-Splits s))
  | inr e ↦
      rw (waiting_line, e)
        (waiting_then-Splits (String.◌∷◌ c s) (after_prefix "WAITING" (String.◌∷◌ c s)) refl)
]

first_match-Splits :
    (s : String) (here later : Option (String × String))
    → Splits s here
    → Splits s later
    → Splits s (first_match here later)
first_match-Splits s none later h g = g
first_match-Splits s (some here) later h g = h

find_waiting-Splits : (s : String) → Splits s (find_waiting s)
unfolding find_waiting Splits
find_waiting-Splits String.[] = tt
find_waiting-Splits (String.◌∷◌ c s) = elim (Bool-cases (code c == 10)) [
  | inl e ↦
      rw (find_waiting, e)
        (before_match-Splits c s (first_match (waiting_line s) (find_waiting s)) (
          first_match-Splits s (waiting_line s) (find_waiting s) (waiting_line-Splits s)
            (find_waiting-Splits s)))
  | inr e ↦ rw (find_waiting, e) (before_match-Splits c s (find_waiting s) (find_waiting-Splits s))
]

-- The text after the first step, and after the second one.
tag_cut-Begins : (s : String) → Begins (cut_tag s).0 s × Untagged (cut_tag s).0
unfolding Untagged
tag_cut-Begins s = elim (Option-cases (before_tag s)) [
  | inl n ↦ rw (cut_tag, n) (whole s, n)
  | inr (kept, n) ↦
      let (b, free) = before_tag-free s kept n in
      let t = trim_end-Begins kept in
      rw (cut_tag, n) (Begins-trans _ kept s t b, shorter-Untagged _ kept t free)
]

waiting_cut-Begins : (text : String) (cut : Bool) → Begins (cut_waiting (text, cut)).0 text
unfolding Splits
waiting_cut-Begins text cut = elim (Option-cases (find_waiting text)) [
  | inl n ↦ rw (cut_waiting, n) (whole text)
  | inr (found, n) ↦ elim (Bool-cases (is_blank found.1)) [
    | inl e ↦ rw (cut_waiting, n, e) (whole text)
    | inr e ↦
        rw (cut_waiting, n, e)
          (record { rest = found.1; joined = subst (Splits text) n (find_waiting-Splits text) })
  ]
]

non_empty-some : (s out : String) → non_empty s ≡ some out → s ≡ out
non_empty-some s out h = elim (Bool-cases (s =ₛ "")) [
  | inl e ↦ absurd (let f = rw (non_empty, e) at h in ground (arith, f))
  | inr e ↦ some-injective s out (rw (non_empty, e) at h)
]

-- What is left of a response is a beginning of it, in which no `<message` occurs.
pub sanitize_llm_response-Begins :
    (content out : String)
    → (sanitize_llm_response (some content)).content ≡ some out
    → Begins out content × (before_tag out ≡ none)
unfolding sanitize_llm_response Untagged
sanitize_llm_response-Begins content out h =
    let (text, cut) = cut_tag content in
    let final = (cut_waiting (text, cut)).0 in
    let (b, free) = tag_cut-Begins content in
    let shorter = waiting_cut-Begins text cut in
    let same : final ≡ out = non_empty-some final out h in
    subst (λ x. Begins x content × (before_tag x ≡ none)) same
      (Begins-trans final text content shorter b, shorter-Untagged final text shorter free)
