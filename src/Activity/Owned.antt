-- ===== src/Activity/Owned.antt =====
-- One holder's lease for a reason of its own: what is open for the reason is the lease it holds.
pub mod Calls
use mathlib.Core.Option.{some-injective}
use roj.Base.{
  ℕ, suc, ◌<◌, ◌≡◌, refl, sym, ap, ◌∙◌, String, Bool, true, false, not, Option, none, some, List,
  [], ◌∷◌, if◌then◌else◌, ◌==◌, ◌=ₛ◌, arith, Option-cases, Bool-cases, inl, inr, ==_iff,
}
use roj.Activity.{Lease, Activity, next_number, find_lease, close_lease, release}
use roj.Activity.Leases.{open_for, open_for-close}

abbrev pub Numbered : List Lease → Type 0
Numbered [] = Unit {0}
Numbered (l ∷ ls) = (l.number ≡ next_number ls) × Numbered ls

abbrev pub is_other : String → Option Lease → Bool
is_other reason none = true
is_other reason (some l) = not (l.reason =ₛ reason)

abbrev pub held_count : Option ℕ → ℕ
held_count none = 0
held_count (some number) = 1

abbrev pub Holds : String → Option ℕ → List Lease → Type 0
Holds reason none ls = Unit {0}
Holds reason (some number) ls =
    (l : Lease) × (find_lease number ls ≡ some l)
    × (l.released ≡ false)
    × ((l.reason =ₛ reason) ≡ true)

abbrev pub Avoids : String → Option ℕ → List Lease → Type 0
Avoids reason none ls = Unit {0}
Avoids reason (some number) ls =
    (l : Lease) × (find_lease number ls ≡ some l) × ((l.reason =ₛ reason) ≡ false)

-- The lease held for the reason, and one more lease of the holder for another reason.
pub record Owned (reason : String) (held other : Option ℕ) (ls : List Lease) : Type 0 where
  pub numbered : Numbered ls
  pub counted : open_for reason ls ≡ held_count held
  pub holds : Holds reason held ls
  pub avoids : Avoids reason other ls

number_below :
    (n : ℕ) (ls : List Lease) (l : Lease)
    → Numbered ls
    → find_lease n ls ≡ some l
    → n < next_number ls
unfolding find_lease
number_below n [] l h f = absurd (ground (arith, f))
number_below n (m ∷ ls) l h f = elim (Bool-cases (m.number == n)) [
  | inl e ↦ let q = (==_iff m.number n).0 e in omega (arith, q)
  | inr e ↦
      let ih = number_below n ls l h.1 (rw (find_lease, e) at f) in
      let q = h.0 in omega (arith, ih, q)
]

pub find_lease-take :
    (n : ℕ) (x : Lease) (ls : List Lease) (l : Lease)
    → Numbered ls
    → x.number ≡ next_number ls
    → find_lease n ls ≡ some l
    → find_lease n (x ∷ ls) ≡ some l
unfolding find_lease
find_lease-take n x ls l h q f = elim (Bool-cases (x.number == n)) [
  | inl e ↦
      let below = number_below n ls l h f in
      let same = (==_iff x.number n).0 e in absurd (omega (arith, below, same, q))
  | inr e ↦ rw (find_lease, e) f
]

find_lease-close :
    (n k : ℕ) (ls : List Lease)
    → (k == n) ≡ false
    → find_lease n (close_lease k ls) ≡ find_lease n ls
unfolding find_lease close_lease
find_lease-close n k [] h = refl
find_lease-close n k (m ∷ ls) h = elim (Bool-cases (m.number == k)) [
  | inl e ↦
      let q = (==_iff m.number k).0 e in
      let d : (m.number == n) ≡ false = ap (λ x. x == n) q ∙ h in
      rw (close_lease, e, find_lease, d) refl
  | inr e ↦ let ih = find_lease-close n k ls h in rw (close_lease, e) (ground (arith, ih))
]

find_lease-close_self :
    (k : ℕ) (ls : List Lease) (l : Lease)
    → find_lease k ls ≡ some l
    → find_lease k (close_lease k ls) ≡ some (record l { released = true; live = false })
unfolding find_lease close_lease
find_lease-close_self k [] l f = absurd (ground (arith, f))
find_lease-close_self k (m ∷ ls) l f = elim (Bool-cases (m.number == k)) [
  | inl e ↦
      let same = some-injective m l (rw (find_lease, e) at f) in
      rw (close_lease, e, find_lease, e)
        (ap (λ (x : Lease). some (record x { released = true; live = false })) same)
  | inr e ↦
      let ih = find_lease-close_self k ls l (rw (find_lease, e) at f) in
      rw (close_lease, e, find_lease, e) ih
]

pub next_number-close : (k : ℕ) (ls : List Lease) → next_number (close_lease k ls) ≡ next_number ls
unfolding close_lease
next_number-close k [] = refl
next_number-close k (m ∷ ls) = elim (Bool-cases (m.number == k)) [
  | inl e ↦ rw (close_lease, e) refl
  | inr e ↦ rw (close_lease, e) refl
]

pub Numbered-close : (k : ℕ) (ls : List Lease) → Numbered ls → Numbered (close_lease k ls)
unfolding close_lease
Numbered-close k [] h = tt
Numbered-close k (m ∷ ls) h = elim (Bool-cases (m.number == k)) [
  | inl e ↦ rw (close_lease, e) h
  | inr e ↦ rw (close_lease, e) (h.0 ∙ sym (next_number-close k ls), Numbered-close k ls h.1)
]

pub Avoids-close :
    (reason : String) (other : Option ℕ) (k : ℕ) (ls : List Lease)
    → Avoids reason other ls
    → Avoids reason other (close_lease k ls)
Avoids-close reason none k ls h = tt
Avoids-close reason (some n) k ls (l, f, q) = elim (Bool-cases (k == n)) [
  | inl e ↦
      let f2 = ap (λ x. find_lease x ls) ((==_iff k n).0 e) ∙ f in
      let g = find_lease-close_self k ls l f2 in
      (
        record l { released = true; live = false },
        ap (λ x. find_lease x (close_lease k ls)) (sym ((==_iff k n).0 e)) ∙ g,
        q,
      )
  | inr e ↦ (l, find_lease-close n k ls e ∙ f, q)
]

-- Another's lease is not the held one.
held_apart :
    (reason : String) (n k : ℕ) (ls : List Lease)
    → Holds reason (some n) ls
    → is_other reason (find_lease k ls) ≡ true
    → (k == n) ≡ false
held_apart reason n k ls (l, f, r, q) h = elim (Bool-cases (k == n)) [
  | inl e ↦
      let f2 = ap (λ x. find_lease x ls) ((==_iff k n).0 e) ∙ f in
      absurd (let bad = rw (f2, q) at h in ground (arith, bad))
  | inr e ↦ e
]

pub Holds-close :
    (reason : String) (held : Option ℕ) (k : ℕ) (ls : List Lease)
    → Holds reason held ls
    → is_other reason (find_lease k ls) ≡ true
    → Holds reason held (close_lease k ls)
Holds-close reason none k ls h o = tt
Holds-close reason (some n) k ls h o =
    (h.0, find_lease-close n k ls (held_apart reason n k ls h o) ∙ h.1, h.2, h.3)

pub Holds-take :
    (reason : String) (held : Option ℕ) (x : Lease) (ls : List Lease)
    → Numbered ls
    → x.number ≡ next_number ls
    → Holds reason held ls
    → Holds reason held (x ∷ ls)
Holds-take reason none x ls h q g = tt
Holds-take reason (some n) x ls h q (l, f, r, e) = (l, find_lease-take n x ls l h q f, r, e)

pub Avoids-take :
    (reason : String) (other : Option ℕ) (x : Lease) (ls : List Lease)
    → Numbered ls
    → x.number ≡ next_number ls
    → Avoids reason other ls
    → Avoids reason other (x ∷ ls)
Avoids-take reason none x ls h q g = tt
Avoids-take reason (some n) x ls h q (l, f, e) = (l, find_lease-take n x ls l h q f, e)

pub find_lease-take_new : (x : Lease) (ls : List Lease) → find_lease x.number (x ∷ ls) ≡ some x
unfolding find_lease
find_lease-take_new x ls = ground arith
