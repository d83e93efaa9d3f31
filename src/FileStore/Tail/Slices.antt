-- ===== src/FileStore/Tail/Slices.antt =====
-- Slices from the end of a list, and what a text splits into when more is put in front of it.
use roj.Base.{
  ℕ, zero, suc, ◌+◌, ◌-◌, ◌≤◌, ◌<◌, min, ◌≡◌, refl, sym, ap, ◌∙◌, Bool, true, false, List, [], ◌∷◌,
  ◌++◌, if◌then◌else◌, ◌==◌, leb, length, length-append, length-drop, take, drop, is_empty, arith,
  Bool-cases, inl, inr, All,
}
use roj.FileStore.{Bytes, Text, newline, Codec, split_lines}
use roj.FileStore.Lines.{has_no_newline}
use roj.FileStore.Tail.{init, take_last, add_from_end, trimmed}

drop-append : (xs ys : List Text) (k : ℕ) → drop (length xs + k) (xs ++ ys) ≡ drop k ys
drop-append [] ys k = ap (λ n. drop n ys) (omega arith)
drop-append (x ∷ xs) ys k =
    let more : suc (length xs) + k ≡ suc (length xs + k) = omega arith in
    ap (λ n. drop n (x ∷ (xs ++ ys))) more ∙ drop-append xs ys k

pub take_last-short : (n : ℕ) (xs : List Text) → length xs ≤ n → take_last n xs ≡ xs
take_last-short n xs h =
    let none_left : length xs - n ≡ 0 = omega (arith, h) in ap (λ k. drop k xs) none_left

pub take_last-append :
    (n : ℕ) (xs ys : List Text) → n ≤ length ys → take_last n (xs ++ ys) ≡ take_last n ys
take_last-append n xs ys h =
    let total = length-append xs ys in
    let split : length (xs ++ ys) - n ≡ length xs + (length ys - n) = omega (arith, total, h) in
    ap (λ k. drop k (xs ++ ys)) split ∙ drop-append xs ys (length ys - n)

pub length-take_last : (n : ℕ) (xs : List Text) → length (take_last n xs) ≡ min n (length xs)
length-take_last n xs = let d = length-drop (length xs - n) xs in omega (arith, d)

pub init-append : (xs ys : List Text) (y : Text) → init (xs ++ (y ∷ ys)) ≡ xs ++ init (y ∷ ys)
init-append [] ys y = refl
init-append (x ∷ []) ys y = refl
init-append (x ∷ z ∷ xs) ys y = ap (λ l. x ∷ l) (init-append (z ∷ xs) ys y)

-- The parts of a text: one before the first newline, and those after it.
pub split_lines-cons :
    (t : Text)
    → (p : Text) × (ps : List Text) × (split_lines t ≡ p ∷ ps) × (has_no_newline p ≡ true)
unfolding split_lines
split_lines-cons [] = ([], [], refl, refl)
split_lines-cons (x ∷ xs) =
    let (p, ps, e, h) = split_lines-cons xs in
    elim (Bool-cases (x == newline)) [
      | inl n ↦ ([], p ∷ ps, rw (n, e) refl, refl)
      | inr n ↦ (x ∷ p, ps, rw (n, e) refl, ground (arith, n, h))
    ]

pub split_lines-one : (t : Text) → has_no_newline t ≡ true → split_lines t ≡ t ∷ []
unfolding split_lines
split_lines-one [] h = refl
split_lines-one (x ∷ xs) h =
    let ih = split_lines-one xs (ground (arith, h)) in
    let here : (x == newline) ≡ false = ground (arith, h) in rw (ih, here)

pub split_lines-append :
    (x y p : Text) (ps : List Text)
    → has_no_newline p ≡ true
    → split_lines y ≡ p ∷ ps
    → split_lines (x ++ y) ≡ split_lines (x ++ p) ++ ps
unfolding split_lines
split_lines-append [] y p ps h e = e ∙ ap (λ l. l ++ ps) (sym (split_lines-one p h))
split_lines-append (x ∷ xs) y p ps h e =
    let ih = split_lines-append xs y p ps h e in
    let (q, qs, f, _) = split_lines-cons (xs ++ p) in
    elim (Bool-cases (x == newline)) [ inl n ↦ rw (ih, f, n) refl | inr n ↦ rw (ih, f, n) refl ]

take_nothing : (n : ℕ) → take {A = ℕ} n [] ≡ []
take_nothing zero = refl
take_nothing (suc n) = refl

pub take-more : (a n : ℕ) (xs : Bytes) → take (a + n) xs ≡ take a xs ++ take n (drop a xs)
take-more zero n xs = ap (λ k. take k xs) (omega arith)
take-more (suc a) n [] =
    let more : suc a + n ≡ suc (a + n) = omega arith in
    ap (λ k. take {A = ℕ} k []) more ∙ sym (take_nothing n)
take-more (suc a) n (x ∷ xs) =
    let more : suc a + n ≡ suc (a + n) = omega arith in
    ap (λ k. take k (x ∷ xs)) more ∙ ap (λ l. x ∷ l) (take-more a n xs)

abbrev pub IsAscii : Bytes → Type 0
IsAscii b = All (λ x. x < 128) b

pub IsAscii-take : (n : ℕ) (b : Bytes) → IsAscii b → IsAscii (take n b)
IsAscii-take zero b h = tt
IsAscii-take (suc n) [] h = tt
IsAscii-take (suc n) (x ∷ xs) h = (h.0, IsAscii-take n xs h.1)

pub IsAscii-drop : (n : ℕ) (b : Bytes) → IsAscii b → IsAscii (drop n b)
IsAscii-drop zero b h = h
IsAscii-drop (suc n) [] h = tt
IsAscii-drop (suc n) (x ∷ xs) h = IsAscii-drop n xs h.1

module _ {E : Type 0} (c : Codec E) where
  pub trimmed-append : (xs ys : List Text) → trimmed c (xs ++ ys) ≡ trimmed c xs ++ trimmed c ys
  trimmed-append [] ys = refl
  trimmed-append (x ∷ xs) ys =
      let ih = trimmed-append xs ys in
      elim (Bool-cases (is_empty (c.trim x))) [
        | inl e ↦ rw (trimmed, e) ih
        | inr e ↦ rw (trimmed, e) (ap (λ l. c.trim x ∷ l) ih)
      ]

  -- One more line in front, when there is room.
  add_one :
      (count : ℕ) (all later : List Text) (t : Text) (full blank : Bool)
      → later ≡ take_last count all
      → full ≡ leb count (length later)
      → (if full then later else if blank then later else t ∷ later)
        ≡ take_last count (if blank then all else t ∷ all)
  add_one count all later t true true e f = e
  add_one count all later t false true e f = e
  add_one count all later t true false e f =
      let size = ap length e ∙ length-take_last count all in
      let room : count ≤ length all = ground (arith, f, size) in
      e ∙ sym (take_last-append count (t ∷ []) all room)
  add_one count all later t false false e f =
      let size = ap length e ∙ length-take_last count all in
      let short : length all < count = ground (arith, f, size) in
      let whole = take_last-short count all (omega (arith, short)) in
      ap (λ l. t ∷ l) (e ∙ whole) ∙ sym (take_last-short count (t ∷ all) (omega (arith, short)))

  in_front :
      (blank : Bool) (t : Text) (ps lines : List Text)
      → (if blank then ps else t ∷ ps) ++ lines ≡ (if blank then ps ++ lines else t ∷ (ps ++ lines))
  in_front true t ps lines = refl
  in_front false t ps lines = refl

  -- The loop from the end takes the last lines of all.
  pub add_from_end-take_last :
      (count : ℕ) (ps lines : List Text)
      → length lines ≤ count
      → add_from_end c count ps lines ≡ take_last count (trimmed c ps ++ lines)
  unfolding add_from_end
  add_from_end-take_last count [] lines h = sym (take_last-short count lines h)
  add_from_end-take_last count (p ∷ ps) lines h =
      let later = add_from_end c count ps lines in
      let blank = is_empty (c.trim p) in
      add_one count (trimmed c ps ++ lines) later (c.trim p) (leb count (length later)) blank
        (add_from_end-take_last count ps lines h) refl
      ∙ ap (take_last count) (sym (in_front blank (c.trim p) (trimmed c ps) lines))
