-- ===== src/Base/Texts.antt =====
-- Texts joined character by character, and the parts of a text between colons.
use Prim.Native.Char.{code}
use Prim.Native.String.{String}
use mathlib.Core.Path.{◌≡◌, refl, sym, ap, ◌∙◌}
use mathlib.Core.Bool.{Bool, true, not, ◌&&◌}
use mathlib.Core.List.{List, [], ◌∷◌}
use mathlib.Core.Logic.{inl, inr}
use native.Mathlib.Omega.{arith}
use text.Mathlib.TextEquality.{Char-path}
use package.roj.Base.Lists.{All}
use package.roj.Base.Tests.{if◌then◌else◌, ◌==◌, Bool-cases}

infixr 60 ◌+ₛ◌
abbrev pub ◌+ₛ◌ : String → String → String
String.[] +ₛ t = t
String.◌∷◌ c s +ₛ t = String.◌∷◌ c (s +ₛ t)

pub text_append_assoc : (r s t : String) → (r +ₛ s) +ₛ t ≡ r +ₛ (s +ₛ t)
text_append_assoc String.[] s t = refl
text_append_assoc (String.◌∷◌ c r) s t = ap (λ x. String.◌∷◌ c x) (text_append_assoc r s t)

pub text_append-nil : (s : String) → s +ₛ "" ≡ s
text_append-nil String.[] = refl
text_append-nil (String.◌∷◌ c s) = ap (λ x. String.◌∷◌ c x) (text_append-nil s)

abbrev first_part : String → List String → List String
first_part c [] = c ∷ []
first_part c (p ∷ ps) = (c +ₛ p) ∷ ps

-- `text.split(":")`
unfoldable pub split : String → List String
split String.[] = "" ∷ []
split (String.◌∷◌ c s) =
    let rest = split s in
    if code c == b':' then "" ∷ rest else first_part (String.◌∷◌ c String.[]) rest

-- No `:` in the text.
abbrev pub is_part : String → Bool
is_part String.[] = true
is_part (String.◌∷◌ c s) = not (code c == b':') && is_part s

-- The parts again, each after a `:`.
abbrev pub tail_parts : List String → String
tail_parts [] = ""
tail_parts (p ∷ ps) = ":" +ₛ p +ₛ tail_parts ps

abbrev pub join : List String → String
join [] = ""
join (p ∷ ps) = p +ₛ tail_parts ps

join-first_part : (c : String) (ps : List String) → join (first_part c ps) ≡ c +ₛ join ps
join-first_part c [] = refl
join-first_part c (p ∷ ps) = text_append_assoc c p (tail_parts ps)

split-cons : (s : String) → (p : String) × (ps : List String) × (split s ≡ p ∷ ps)
unfolding split
split-cons String.[] = ("", [], refl)
split-cons (String.◌∷◌ c s) =
    let (p, ps, e) = split-cons s in
    elim (Bool-cases (code c == b':')) [
      | inl colon ↦ ("", split s, rw colon)
      | inr other ↦ (String.◌∷◌ c p, ps, rw (other, e))
    ]

tail_parts-split : (s : String) → tail_parts (split s) ≡ ":" +ₛ join (split s)
tail_parts-split s = let (p, ps, e) = split-cons s in rw e refl

pub join-split : (s : String) → join (split s) ≡ s
unfolding split
join-split String.[] = refl
join-split (String.◌∷◌ c s) = elim (Bool-cases (code c == b':')) [
  | inl e ↦ rw e (
      tail_parts-split s
      ∙ ap (λ x. String.◌∷◌ ":" x) (join-split s)
      ∙ ap (λ d. String.◌∷◌ d s) (sym (Char-path c ":" (ground arith))))
  | inr e ↦
      rw e (
        join-first_part (String.◌∷◌ c String.[]) (split s)
        ∙ ap (λ x. String.◌∷◌ c x) (join-split s))
]

pub split-append : (s t : String) → is_part s ≡ true → split (s +ₛ ":" +ₛ t) ≡ s ∷ split t
unfolding split
split-append String.[] t h = refl
split-append (String.◌∷◌ c s) t h = elim (Bool-cases (code c == b':')) [
  | inl e ↦ absurd (ground (arith, e, h))
  | inr e ↦ rw (e, split-append s t (ground (arith, e, h))) refl
]

pub split_part : (s : String) → is_part s ≡ true → split s ≡ s ∷ []
unfolding split
split_part String.[] h = refl
split_part (String.◌∷◌ c s) h = elim (Bool-cases (code c == b':')) [
  | inl e ↦ absurd (ground (arith, e, h))
  | inr e ↦ rw (e, split_part s (ground (arith, e, h))) refl
]

-- Every part is free of colons.
pub All-split : (s : String) → All (λ p. is_part p ≡ true) (split s)
unfolding split
All-split String.[] = (refl, tt)
All-split (String.◌∷◌ c s) =
    let ih = All-split s in
    let (p, ps, e) = split-cons s in
    elim (Bool-cases (code c == b':')) [
      | inl colon ↦ rw colon (refl, ih)
      | inr other ↦ rw (other, e) (let h = rw e at ih in (rw other h.0, h.1))
    ]

pub split-join :
    (p : String) (ps : List String)
    → is_part p ≡ true
    → All (λ q. is_part q ≡ true) ps
    → split (p +ₛ tail_parts ps) ≡ p ∷ ps
split-join p [] h hs = rw (text_append-nil p) (split_part p h)
split-join p (q ∷ ps) h hs =
    split-append p (q +ₛ tail_parts ps) h ∙ ap (λ x. p ∷ x) (split-join q ps hs.0 hs.1)
