-- ===== src/Activity/Leases.antt =====
-- Counts and reasons agree with the leases that are open, whatever is called in whatever order.
use mathlib.Core.Option.{some-injective}
use roj.Base.{
  ℕ, suc, ◌+◌, ◌-◌, ◌≡◌, refl, ap, ◌∙◌, String, Bool, true, false, ◌&&◌, Option, none, some, List,
  [], ◌∷◌, if◌then◌else◌, ◌==◌, leb, ◌=ₛ◌, Dict, lookup, lookup-insert, lookup-remove, or_zero,
  arith, Option-cases, Bool-cases, inl, inr, eq_iff, All,
}
use roj.Activity.{Lease, Activity, take_lease, find_lease, close_lease, uncount, release}

-- The leases that are not released, all of them and those with a reason.
abbrev pub open_leases : List Lease → ℕ
open_leases [] = 0
open_leases (l ∷ ls) = let rest = open_leases ls in if l.released then rest else suc rest

abbrev pub open_for : String → List Lease → ℕ
open_for reason [] = 0
open_for reason (l ∷ ls) =
    let rest = open_for reason ls in
    if l.released then rest else if l.reason =ₛ reason then suc rest else rest

abbrev pub unless_zero : ℕ → Option ℕ
unless_zero n = if n == 0 then none else some n

pub record Inv (a : Activity) : Type 0 where
  pub counted : a.active_count ≡ open_leases a.leases
  pub by_reason :
      (reason : String) → lookup reason a.reasons ≡ unless_zero (open_for reason a.leases)
  pub live_open : All (λ l. l.live && l.released ≡ false) a.leases

or_zero-unless_zero : (n : ℕ) → or_zero (unless_zero n) ≡ n
or_zero-unless_zero n = ground arith

one_more_for :
    (same : Bool) (mine theirs : ℕ) (old : Option ℕ)
    → (same ≡ true → mine ≡ theirs)
    → old ≡ unless_zero theirs
    → (if same then some (mine + 1) else old) ≡ unless_zero (if same then suc theirs else theirs)
one_more_for true mine theirs old h e = let q = h refl in ground (arith, q)
one_more_for false mine theirs old h e = e

pub take_lease-Inv :
    (now : ℕ) (scoped : Bool) (reason : String) (a : Activity)
    → Inv a
    → Inv (take_lease now scoped reason a).1
unfolding take_lease
take_lease-Inv now scoped reason a h = record {
  counted = let c = h.counted in omega (arith, c);
  by_reason = λ r.
      let mine = ap or_zero (h.by_reason reason) ∙ or_zero-unless_zero (open_for reason a.leases) in
      lookup-insert reason r (or_zero (lookup reason a.reasons) + 1) a.reasons
      ∙ one_more_for (reason =ₛ r) (or_zero (lookup reason a.reasons)) (open_for r a.leases)
          (lookup r a.reasons) (λ e. mine ∙ ap (λ x. open_for x a.leases) ((eq_iff reason r).0 e))
          (h.by_reason r);
  live_open = (ground arith, h.live_open);
}

open_leases-close :
    (number : ℕ) (ls : List Lease) (l : Lease)
    → find_lease number ls ≡ some l
    → l.released ≡ false
    → suc (open_leases (close_lease number ls)) ≡ open_leases ls
unfolding find_lease close_lease
open_leases-close number [] l f h = absurd (ground (arith, f))
open_leases-close number (m ∷ ls) l f h = elim (Bool-cases (m.number == number)) [
  | inl e ↦
      let still =
        ap (λ (x : Lease). x.released) (some-injective m l (rw (find_lease, e) at f)) ∙ h in
      rw (close_lease, e, still) refl
  | inr e ↦
      let ih = open_leases-close number ls l (rw (find_lease, e) at f) h in
      rw (close_lease, e) (ground (arith, ih))
]

pub open_for-close :
    (number : ℕ) (ls : List Lease) (l : Lease) (reason : String)
    → find_lease number ls ≡ some l
    → l.released ≡ false
    → open_for reason ls ≡ (
        if l.reason =ₛ reason
        then suc (open_for reason (close_lease number ls))
        else open_for reason (close_lease number ls))
unfolding find_lease close_lease
open_for-close number [] l reason f h = absurd (ground (arith, f))
open_for-close number (m ∷ ls) l reason f h = elim (Bool-cases (m.number == number)) [
  | inl e ↦
      let same = some-injective m l (rw (find_lease, e) at f) in
      let still = ap (λ (x : Lease). x.released) same ∙ h in
      let why = ap (λ (x : Lease). x.reason =ₛ reason) same in rw (close_lease, e, still, why) refl
  | inr e ↦
      let ih = open_for-close number ls l reason (rw (find_lease, e) at f) h in
      rw (close_lease, e) (ground (arith, ih))
]

one_fewer_for :
    (same : Bool) (mine theirs left : ℕ) (old : Option ℕ)
    → (same ≡ true → mine ≡ suc left)
    → theirs ≡ (if same then suc left else left)
    → old ≡ unless_zero theirs
    → (if leb mine 1 then if same then none else old else if same then some (mine - 1) else old)
      ≡ unless_zero left
one_fewer_for true mine theirs left old h e o = let q = h refl in ground (arith, q)
one_fewer_for false mine theirs left old h e o = rw (o, e) (ground arith)

lookup-uncount :
    (reason r : String) (reasons : Dict ℕ)
    → lookup r (uncount reason reasons) ≡ (
        if leb (or_zero (lookup reason reasons)) 1
        then if reason =ₛ r then none else lookup r reasons
        else if reason =ₛ r
        then some (or_zero (lookup reason reasons) - 1)
        else lookup r reasons)
lookup-uncount reason r reasons = elim (Bool-cases (leb (or_zero (lookup reason reasons)) 1)) [
  | inl e ↦ rw (uncount, e) (lookup-remove reason r reasons)
  | inr e ↦ rw (uncount, e) (lookup-insert reason r (or_zero (lookup reason reasons) - 1) reasons)
]

LiveOpen : List Lease → Type 0
LiveOpen ls = All (λ l. l.live && l.released ≡ false) ls

LiveOpen-close : (number : ℕ) (ls : List Lease) → LiveOpen ls → LiveOpen (close_lease number ls)
unfolding LiveOpen close_lease
LiveOpen-close number [] h = tt
LiveOpen-close number (m ∷ ls) h = elim (Bool-cases (m.number == number)) [
  | inl e ↦ rw (close_lease, e) (refl, h.1)
  | inr e ↦ rw (close_lease, e) (h.0, LiveOpen-close number ls h.1)
]

release_open :
    (now number : ℕ) (a : Activity) (l : Lease)
    → find_lease number a.leases ≡ some l
    → l.released ≡ false
    → Inv a
    → Inv (record a {
      active_count = a.active_count - 1;
      reasons = uncount l.reason a.reasons;
      last_activity_at = now;
      leases = close_lease number a.leases;
    })
unfolding LiveOpen
release_open now number a l f e h = record {
  counted = let c = h.counted in omega (arith, c, open_leases-close number a.leases l f e);
  by_reason = λ r.
      let mine =
        ap or_zero (h.by_reason l.reason) ∙ or_zero-unless_zero (open_for l.reason a.leases) in
      let left = open_for r (close_lease number a.leases) in
      let theirs = open_for-close number a.leases l r f e in
      lookup-uncount l.reason r a.reasons
      ∙ one_fewer_for (l.reason =ₛ r) (or_zero (lookup l.reason a.reasons)) (open_for r a.leases)
          left (lookup r a.reasons)
          (λ same.
            mine ∙ ap (λ x. open_for x a.leases) ((eq_iff l.reason r).0 same) ∙ rw same at theirs)
          theirs (h.by_reason r);
  live_open = LiveOpen-close number a.leases h.live_open;
}

pub release-Inv : (now number : ℕ) (a : Activity) → Inv a → Inv (release now number a)
unfolding release
release-Inv now number a h = elim (Option-cases (find_lease number a.leases)) [
  | inl n ↦ rw (release, n) h
  | inr (l, n) ↦ elim (Bool-cases l.released) [
    | inl e ↦ rw (release, n, e) h
    | inr e ↦ rw (release, n, e) (release_open now number a l n e h)
  ]
]
