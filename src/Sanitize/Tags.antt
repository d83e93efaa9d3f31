-- ===== src/Sanitize/Tags.antt =====
-- Beginnings of texts, and the tag that a sanitized response has not.
use Prim.Native.Char.{code}
use text.Mathlib.TextEquality.{Char-path}
use mathlib.Core.Option.{some-injective}
use roj.Base.{
  ==_iff, ◌≡◌, refl, sym, ap, ◌∙◌, subst, String, Bool, true, false, ◌&&◌, Option, none, some,
  if◌then◌else◌, ◌==◌, ◌+ₛ◌, text_append_assoc, text_append-nil, is_some, arith, Option-cases,
  Bool-cases, inl, inr,
}
use roj.Sanitize.{is_space, is_blank, trim_end, at_tag, behind, after_prefix, before_tag}

-- The second text begins with the first one.
pub record Begins (t s : String) : Type 0 where
  pub rest : String
  pub joined : s ≡ t +ₛ rest

pub whole : (s : String) → Begins s s
whole s = record { rest = ""; joined = sym (text_append-nil s) }

pub Begins-trans : (r s t : String) → Begins r s → Begins s t → Begins r t
Begins-trans r s t h g = record {
  rest = h.rest +ₛ g.rest;
  joined = g.joined ∙ ap (λ x. x +ₛ g.rest) h.joined ∙ text_append_assoc r h.rest g.rest;
}

pub trim_end-Begins : (s : String) → Begins (trim_end s) s
unfolding trim_end
trim_end-Begins String.[] = whole ""
trim_end-Begins (String.◌∷◌ c s) =
    let ih = trim_end-Begins s in
    elim (Bool-cases (is_space (code c) && is_blank s)) [
      | inl e ↦ rw (trim_end, e) (record { rest = String.◌∷◌ c s; joined = refl })
      | inr e ↦
          rw (trim_end, e) (record { rest = ih.rest; joined = ap (λ x. String.◌∷◌ c x) ih.joined })
    ]

pub after_prefix-joined : (p s rest : String) → after_prefix p s ≡ some rest → s ≡ p +ₛ rest
unfolding after_prefix
after_prefix-joined String.[] s rest h = some-injective s rest h
after_prefix-joined (String.◌∷◌ c p) String.[] rest h = absurd (ground (arith, h))
after_prefix-joined (String.◌∷◌ c p) (String.◌∷◌ d s) rest h =
    elim (Bool-cases (code c == code d)) [
      | inl e ↦
          let same = Char-path c d ((==_iff (code c) (code d)).0 e) in
          let tail = after_prefix-joined p s rest (rw (after_prefix, e) at h) in
          rw tail (ap (λ x. String.◌∷◌ x (p +ₛ rest)) (sym same))
      | inr e ↦ absurd (let f = rw (after_prefix, e) at h in ground (arith, f))
    ]

-- A tag that a text begins with is one of every text that continues it.
after_prefix-longer :
    (p t rest : String)
    → is_some (after_prefix p t) ≡ true
    → is_some (after_prefix p (t +ₛ rest)) ≡ true
unfolding after_prefix
after_prefix-longer String.[] t rest h = refl
after_prefix-longer (String.◌∷◌ c p) String.[] rest h = absurd (ground (arith, h))
after_prefix-longer (String.◌∷◌ c p) (String.◌∷◌ d t) rest h =
    elim (Bool-cases (code c == code d)) [
      | inl e ↦ rw (after_prefix, e) (after_prefix-longer p t rest (rw (after_prefix, e) at h))
      | inr e ↦ absurd (let f = rw (after_prefix, e) at h in ground (arith, f))
    ]

at_tag-longer : (t rest : String) → at_tag t ≡ true → at_tag (t +ₛ rest) ≡ true
unfolding at_tag
at_tag-longer t rest h = after_prefix-longer "<message" t rest h

at_tag-shorter : (t rest : String) → at_tag (t +ₛ rest) ≡ false → at_tag t ≡ false
at_tag-shorter t rest h = elim (Bool-cases (at_tag t)) [
  | inl e ↦ absurd (let more = at_tag-longer t rest e in ground (arith, more, h))
  | inr e ↦ e
]

-- A text with no tag has none at its beginning and none behind.
untagged :
    (at : Bool) (c : String) (o : Option String)
    → (if at then some "" else behind c o) ≡ none
    → (at ≡ false) × (o ≡ none)
untagged true c o h = absurd (ground (arith, h))
untagged false c none h = (refl, refl)
untagged false c (some kept) h = absurd (ground (arith, h))

before_tag-shorter : (t rest : String) → before_tag (t +ₛ rest) ≡ none → before_tag t ≡ none
unfolding before_tag
before_tag-shorter String.[] rest h = refl
before_tag-shorter (String.◌∷◌ c t) rest h =
    let (at, later) =
      untagged (at_tag (String.◌∷◌ c (t +ₛ rest))) (String.◌∷◌ c String.[]) (before_tag (t +ₛ rest))
        h in
    elim (Bool-cases (at_tag (String.◌∷◌ c t))) [
      | inl e ↦
          absurd (let more = at_tag-longer (String.◌∷◌ c t) rest e in ground (arith, more, at))
      | inr e ↦ rw (before_tag, e, before_tag-shorter t rest later) refl
    ]

unfoldable pub Untagged : String → Type 0
Untagged s = before_tag s ≡ none

pub shorter-Untagged : (t s : String) → Begins t s → Untagged s → Untagged t
unfolding Untagged
shorter-Untagged t s b h = before_tag-shorter t b.rest (subst (λ x. before_tag x ≡ none) b.joined h)

pub before_tag-free : (s kept : String) → before_tag s ≡ some kept → Begins kept s × Untagged kept
unfolding before_tag Untagged
before_tag-free String.[] kept h = absurd (ground (arith, h))
before_tag-free (String.◌∷◌ c s) kept h = elim (Bool-cases (at_tag (String.◌∷◌ c s))) [
  | inl e ↦
      let same : "" ≡ kept = some-injective "" kept (rw (before_tag, e) at h) in
      subst (λ k. Begins k (String.◌∷◌ c s) × (before_tag k ≡ none)) same
        (record { rest = String.◌∷◌ c s; joined = refl }, refl)
  | inr e ↦ elim (Option-cases (before_tag s)) [
    | inl n ↦ absurd (let f = rw (before_tag, e, n) at h in ground (arith, f))
    | inr (k, n) ↦
        let same : String.◌∷◌ c k ≡ kept =
          some-injective (String.◌∷◌ c k) kept (rw (before_tag, e, n) at h) in
        let (b, free) = before_tag-free s k n in
        let here : at_tag (String.◌∷◌ c k) ≡ false =
          at_tag-shorter (String.◌∷◌ c k) b.rest
            (ap at_tag (sym (ap (λ x. String.◌∷◌ c x) b.joined)) ∙ e) in
        subst (λ k. Begins k (String.◌∷◌ c s) × (before_tag k ≡ none)) same
          (
            record { rest = b.rest; joined = ap (λ x. String.◌∷◌ c x) b.joined },
            rw (before_tag, here, free) refl,
          )
  ]
]
