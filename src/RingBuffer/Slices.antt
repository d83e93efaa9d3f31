-- ===== src/RingBuffer/Slices.antt =====
-- Slices of the array, and what a write at the head does to them.
use native.Mathlib.Nat.{mod_self, mod-eq_of_lt}
use roj.Base.{
  append-nil, ℕ, zero, suc, ◌+◌, ◌-◌, ◌%◌, ◌≤◌, ◌<◌, ◌≡◌, ◌≢◌, ==_iff, refl, sym, ap, ◌∙◌, String,
  [], ◌∷◌, ◌++◌, if◌then◌else◌, ◌==◌, length, drop, arith, append_assoc, Bool-cases, inl, inr,
}
use roj.RingBuffer.{set, slice}

pub next :
    (head capacity : ℕ)
    → head < capacity
    → (head + 1) % capacity ≡ (if suc head == capacity then 0 else suc head)
next head capacity h = elim (Bool-cases (suc head == capacity)) [
  | inl e ↦
      let full : head + 1 ≡ capacity = (let q = (==_iff (suc head) capacity).0 e in omega arith) in
      rw (e, full) (mod_self capacity)
  | inr e ↦
      let lower : head + 1 < capacity = ground (arith, e, h) in
      let same : suc head ≡ head + 1 = omega arith in rw (e, same) (mod-eq_of_lt lower)
]

slice-append :
    (f : ℕ → String) (from m n : ℕ) → slice f from (m + n) ≡ slice f from m ++ slice f (from + m) n
slice-append f from zero n =
    let left : 0 + n ≡ n = omega arith in
    let right : from + 0 ≡ from = omega arith in rw (left, right) refl
slice-append f from (suc m) n =
    let left : suc m + n ≡ suc (m + n) = omega arith in
    let right : from + suc m ≡ suc from + m = omega arith in
    rw (left, right) (ap (λ l. f from ∷ l) (slice-append f (suc from) m n))

set_other : (f : ℕ → String) (i j : ℕ) (line : String) → i ≢ j → set f i line j ≡ f j
set_other f i j line h = elim (Bool-cases (i == j)) [
  | inl e ↦ absurd (h ((==_iff i j).0 e))
  | inr e ↦ rw (set, e) refl
]

set_same : (f : ℕ → String) (i : ℕ) (line : String) → set f i line i ≡ line
set_same f i line = rw (set, (==_iff i i).1 refl) refl

slice-set_before :
    (f : ℕ → String) (i from n : ℕ) (line : String)
    → from + n ≤ i
    → slice (set f i line) from n ≡ slice f from n
slice-set_before f i from zero line h = refl
slice-set_before f i from (suc n) line h =
    rw
      (
        set_other f i from line (λ q. let e = q in omega arith),
        slice-set_before f i (suc from) n line (omega arith),
      )
      refl

pub slice-set_after :
    (f : ℕ → String) (i from n : ℕ) (line : String)
    → i < from
    → slice (set f i line) from n ≡ slice f from n
slice-set_after f i from zero line h = refl
slice-set_after f i from (suc n) line h =
    rw
      (
        set_other f i from line (λ q. let e = q in omega arith),
        slice-set_after f i (suc from) n line (omega arith),
      )
      refl

-- A line written behind a slice is its next element.
pub slice-push :
    (f : ℕ → String) (n : ℕ) (line : String)
    → slice (set f n line) 0 (suc n) ≡ slice f 0 n ++ (line ∷ [])
slice-push f n line =
    let size : suc n ≡ n + 1 = omega arith in
    let place : 0 + n ≡ n = omega arith in
    ap (slice (set f n line) 0) size
    ∙ slice-append (set f n line) 0 n 1
    ∙ rw (slice-set_before f n 0 n line (omega arith), place, set_same f n line) refl

pub length-slice : (f : ℕ → String) (from n : ℕ) → length (slice f from n) ≡ n
length-slice f from zero = refl
length-slice f from (suc n) = ap (λ k. suc k) (length-slice f (suc from) n)

abbrev pub wrapped : ℕ → ℕ → ℕ
wrapped head capacity = if suc head == capacity then 0 else suc head

module _ (f : ℕ → String) (head capacity : ℕ) (line : String) (h : head < capacity) where
  -- All of the slots but the oldest, then the new line.
  pub rotated :
      slice (set f head line) (wrapped head capacity) (capacity - wrapped head capacity)
        ++ slice (set f head line) 0 (wrapped head capacity)
      ≡ drop 1 (slice f head (capacity - head) ++ slice f 0 head) ++ (line ∷ [])
  rotated =
      let rest : capacity - head ≡ suc (capacity - suc head) = omega arith in
      elim (Bool-cases (suc head == capacity)) [
        | inl e ↦
            let end : capacity ≡ suc head = sym ((==_iff (suc head) capacity).0 e) in
            let none_left : suc head - head ≡ 1 = omega arith in
            let whole : suc head - 0 ≡ suc head = omega arith in
            rw (e, end, none_left, whole)
              (append-nil (slice (set f head line) 0 (suc head)) ∙ slice-push f head line)
        | inr e ↦
            rw (e, rest, slice-push f head line)
              (ap (λ l. l ++ (slice f 0 head ++ (line ∷ [])))
                  (slice-set_after f head (suc head) (capacity - suc head) line (omega arith))
                ∙ sym (
                    append_assoc (slice f (suc head) (capacity - suc head)) (slice f 0 head)
                      (line ∷ [])))
      ]
