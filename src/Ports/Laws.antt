-- ===== src/Ports/Laws.antt =====
-- No port is given out twice, none outside the range, and a pool with a free port gives one.
use mathlib.Core.Option.{some-injective}
use roj.Base.{
  leb→le, ◌∙◌, ℕ, zero, suc, ◌+◌, ◌≤◌, ◌<◌, ◌≡◌, refl, true, false, not, Option, none, some, List,
  [], ◌∷◌, ◌==◌, leb, keep, length, arith, All, Option-cases, Bool-cases, inl, inr,
}
use roj.Ports.{PortPool, has, add, range_of, probe, scan, give, allocate}

abbrev pub Fresh : List ℕ → Type 0
Fresh [] = Unit
Fresh (p ∷ ps) = (has p ps ≡ false) × Fresh ps

-- Every allocated port is in the range, and stands once.
pub record IsPool (pool : PortPool) : Type 0 where
  pub in_range : All (λ p. (pool.min_port ≤ p) × (p ≤ pool.max_port)) pool.allocated
  pub once : Fresh pool.allocated

-- A port that was not allocated and is now, in the range, the pool else unchanged.
pub record Given (pool : PortPool) (port : ℕ) (after : PortPool) : Type 0 where
  pub new : has port pool.allocated ≡ false
  pub low : pool.min_port ≤ port
  pub high : port ≤ pool.max_port
  pub added : after ≡ add port pool

scan_free :
    (left port p : ℕ) (taken : List ℕ)
    → scan left port taken ≡ some p
    → (has p taken ≡ false) × (port ≤ p) × (p < port + left)
unfolding scan
scan_free zero port p taken h = absurd (ground (arith, h))
scan_free (suc left) port p taken h = elim (Bool-cases (has port taken)) [
  | inl e ↦
      let (new, low, high) = scan_free left (suc port) p taken (rw (scan, e) at h) in
      (new, omega arith, omega arith)
  | inr e ↦
      let same : port ≡ p = some-injective port p (rw (scan, e) at h) in
      (rw same at e, omega arith, omega arith)
]

-- The ports but one.
abbrev pub without : ℕ → List ℕ → List ℕ
without port = keep (λ p. not (p == port))

pub has-without :
    (p port : ℕ) (taken : List ℕ) → port < p → has p (without port taken) ≡ has p taken
has-without p port [] h = refl
has-without p port (q ∷ taken) h = let ih = has-without p port taken h in ground (arith, ih)

scan-without :
    (left start port : ℕ) (taken : List ℕ)
    → port < start
    → scan left start (without port taken) ≡ scan left start taken
unfolding scan
scan-without zero start port taken h = refl
scan-without (suc left) start port taken h =
    rw (has-without start port taken h, scan-without left (suc start) port taken (omega arith)) refl

length-without_le : (port : ℕ) (taken : List ℕ) → length (without port taken) ≤ length taken
length-without_le port [] = omega arith
length-without_le port (q ∷ taken) = let ih = length-without_le port taken in ground (arith, ih)

length-without :
    (port : ℕ) (taken : List ℕ) → has port taken ≡ true → length (without port taken) < length taken
length-without port [] h = absurd (ground (arith, h))
length-without port (q ∷ taken) h = elim (Bool-cases (q == port)) [
  | inl e ↦ let le = length-without_le port taken in rw (keep, e) (omega arith)
  | inr e ↦ let ih = length-without port taken (rw e at h) in rw (keep, e) (omega arith)
]

-- A scan that finds nothing has met as many taken ports as it looked at.
scan-none : (left port : ℕ) (taken : List ℕ) → scan left port taken ≡ none → left ≤ length taken
unfolding scan
scan-none zero port taken h = omega arith
scan-none (suc left) port taken h = elim (Bool-cases (has port taken)) [
  | inl e ↦
      let fewer = length-without port taken e in
      let rest =
        scan-none left (suc port) (without port taken)
          (scan-without left (suc port) port taken (omega arith) ∙ rw (scan, e) at h) in
      omega arith
  | inr e ↦ absurd (let f = rw (scan, e) at h in ground (arith, f))
]

probe_free :
    (draws : List ℕ) (pool : PortPool) (p : ℕ)
    → All (λ d. d < range_of pool) draws
    → probe draws pool ≡ some p
    → (has p pool.allocated ≡ false) × (pool.min_port ≤ p) × (p ≤ pool.max_port)
unfolding probe
probe_free [] pool p hs h = absurd (ground (arith, h))
probe_free (d ∷ ds) pool p hs h = elim (Bool-cases (has (pool.min_port + d) pool.allocated)) [
  | inl e ↦ probe_free ds pool p hs.1 (rw (probe, e) at h)
  | inr e ↦
      let same : pool.min_port + d ≡ p =
        some-injective (pool.min_port + d) p (rw (probe, e) at h) in
      let small = hs.0 in (rw same at e, omega arith, omega arith)
]

-- What `allocate` may answer: a free port of the range, or none of a pool that is full.
pub data Answer (pool : PortPool) : Option ℕ × PortPool → Type 0 where
  given : (port : ℕ) (after : PortPool) → Given pool port after → Answer pool (some port, after)
  full : range_of pool ≤ length pool.allocated → Answer pool (none, pool)

give-Answer :
    (o : Option ℕ) (pool : PortPool)
    → ((p : ℕ)
        → o ≡ some p
        → (has p pool.allocated ≡ false) × (pool.min_port ≤ p) × (p ≤ pool.max_port))
    → (o ≡ none → range_of pool ≤ length pool.allocated)
    → Answer pool (give o pool)
give-Answer none pool h g = full (g refl)
give-Answer (some p) pool h g =
    let (new, low, high) = h p refl in
    given p _ (record { new = new; low = low; high = high; added = refl })

pub allocate-Answer :
    (draws : List ℕ) (pool : PortPool)
    → All (λ d. d < range_of pool) draws
    → Answer pool (allocate draws pool)
unfolding allocate
allocate-Answer draws pool hs = elim (Bool-cases (leb (range_of pool) (length pool.allocated))) [
  | inl e ↦ rw (allocate, e) (full (leb→le _ _ e))
  | inr e ↦ elim (Option-cases (probe draws pool)) [
    | inl n ↦
        rw (allocate, e, n)
          (give-Answer (scan (range_of pool) pool.min_port pool.allocated) pool
            (λ p q.
              let (new, low, high) = scan_free (range_of pool) pool.min_port p pool.allocated q in
              (new, low, omega arith))
            (scan-none (range_of pool) pool.min_port pool.allocated))
    | inr (p, n) ↦
        rw (allocate, e, n)
          (give-Answer (some p) pool (λ q s. probe_free draws pool q hs (n ∙ s))
            (λ s. absurd (ground (arith, s))))
  ]
]
