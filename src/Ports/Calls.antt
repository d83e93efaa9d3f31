-- ===== src/Ports/Calls.antt =====
-- A pool over any calls, and the preferred port.
use roj.Base.{
  ℕ, ◌≤◌, ◌<◌, ◌≡◌, refl, sym, subst, Bool, true, false, ◌||◌, Option, none, some, List, [], ◌∷◌,
  ◌==◌, ltb, keep, arith, All, Bool-cases, inl, inr,
}
use roj.Ports.{PortPool, has, add, range_of, try_allocate, allocate_preferred, release_port}
use roj.Ports.Laws.{Fresh, IsPool, Answer, given, full, allocate-Answer, without}

-- The preferred port can be had: it is in the range and free.
pub Available : ℕ → PortPool → Type 0
Available port pool =
    (pool.min_port ≤ port) × (port ≤ pool.max_port) × (has port pool.allocated ≡ false)

refuses : ℕ → PortPool → Bool
refuses port pool = ltb port pool.min_port || ltb pool.max_port port || has port pool.allocated

try_allocate-yes :
    (port : ℕ) (pool : PortPool)
    → refuses port pool ≡ false
    → try_allocate port pool ≡ (true, add port pool)
unfolding try_allocate refuses
try_allocate-yes port pool h = ground (arith, h)

try_allocate-no :
    (port : ℕ) (pool : PortPool) → refuses port pool ≡ true → try_allocate port pool ≡ (false, pool)
unfolding try_allocate refuses
try_allocate-no port pool h = ground (arith, h)

not_refused :
    (port : ℕ) (pool : PortPool)
    → refuses port pool ≡ false
    → (has port pool.allocated ≡ false) × (pool.min_port ≤ port) × (port ≤ pool.max_port)
unfolding refuses
not_refused port pool h = (ground (arith, h), ground (arith, h), ground (arith, h))

allocate_preferred-Answer :
    (draws : List ℕ) (preferred : Option ℕ) (pool : PortPool)
    → All (λ d. d < range_of pool) draws
    → Answer pool (allocate_preferred draws preferred pool)
unfolding allocate_preferred
allocate_preferred-Answer draws none pool hs = allocate-Answer draws pool hs
allocate_preferred-Answer draws (some port) pool hs = elim (Bool-cases (refuses port pool)) [
  | inl e ↦ rw (try_allocate-no port pool e) (allocate-Answer draws pool hs)
  | inr e ↦ rw (try_allocate-yes port pool e) (
      let (new, low, high) = not_refused port pool e in
      given port _ (record { new = new; low = low; high = high; added = refl }))
]

-- A port is found whenever one of the range is free, whatever the random draws: the answer is a
-- port of the range that was not allocated and is afterwards, and it is `null` only when as many
-- ports are allocated as the range has. A preferred port that is in the range and free is the one
-- given.
pub allocate_preferred_lem :
    (draws : List ℕ) (preferred : Option ℕ) (pool : PortPool)
    → All (λ d. d < range_of pool) draws
    → Answer pool (allocate_preferred draws preferred pool)
      × ((port : ℕ)
          → preferred ≡ some port
          → Available port pool
          → (allocate_preferred draws preferred pool).0 ≡ some port)
unfolding allocate_preferred Available refuses
allocate_preferred_lem draws preferred pool hs = (
  allocate_preferred-Answer draws preferred pool hs,
  λ port e h.
      let no : refuses port pool ≡ false =
        (let (low, high, new) = h in ground (arith, low, high, new)) in
      rw (e, try_allocate-yes port pool no) refl,
)

pub data PoolCall : Type 0 where
  take_port : (draws : List ℕ) (preferred : Option ℕ) → PoolCall
  give_back : (port : ℕ) → PoolCall

unfoldable pub call_pool : PoolCall → PortPool → PortPool
call_pool (take_port draws preferred) pool = (allocate_preferred draws preferred pool).1
call_pool (give_back port) pool = release_port port pool

unfoldable pub run_pool : List PoolCall → PortPool → PortPool
unfolding call_pool
run_pool [] pool = pool
run_pool (c ∷ cs) pool = run_pool cs (call_pool c pool)

-- Draws of `Math.floor(Math.random() * range)` are below the range.
abbrev pub Drawn : ℕ → PoolCall → Type 0
Drawn range (take_port draws preferred) = All (λ d. d < range) draws
Drawn range (give_back port) = Unit

-- A pool with its range.
record Pool (range : ℕ) (pool : PortPool) : Type 0 where
  ranged : range_of pool ≡ range
  well : IsPool pool

Answer-Pool :
    (range : ℕ) (pool : PortPool) (x : Option ℕ × PortPool)
    → Pool range pool
    → Answer pool x
    → Pool range x.1
Answer-Pool range pool _ h (given port after g) = subst (Pool range) (sym g.added) (record {
  ranged = h.ranged;
  well = record { in_range = ((g.low, g.high), h.well.in_range); once = (g.new, h.well.once) };
})
Answer-Pool range pool _ h (full f) = h

has-keep_false :
    (p port : ℕ) (taken : List ℕ) → has p taken ≡ false → has p (without port taken) ≡ false
has-keep_false p port [] h = refl
has-keep_false p port (q ∷ taken) h =
    let ih = has-keep_false p port taken (ground (arith, h)) in ground (arith, h, ih)

Fresh-without : (port : ℕ) (taken : List ℕ) → Fresh taken → Fresh (without port taken)
Fresh-without port [] h = tt
Fresh-without port (q ∷ taken) h = elim (Bool-cases (q == port)) [
  | inl e ↦ rw (keep, e) (Fresh-without port taken h.1)
  | inr e ↦ rw (keep, e) (has-keep_false q port taken h.0, Fresh-without port taken h.1)
]

All-without :
    (P : ℕ → Type 0) (port : ℕ) (taken : List ℕ) → All P taken → All P (without port taken)
All-without P port [] h = tt
All-without P port (q ∷ taken) h = elim (Bool-cases (q == port)) [
  | inl e ↦ rw (keep, e) (All-without P port taken h.1)
  | inr e ↦ rw (keep, e) (h.0, All-without P port taken h.1)
]

call_pool-Pool :
    (range : ℕ) (c : PoolCall) (pool : PortPool)
    → Drawn range c
    → Pool range pool
    → Pool range (call_pool c pool)
unfolding call_pool release_port
call_pool-Pool range (take_port draws preferred) pool d h = Answer-Pool range pool _ h (
    allocate_preferred-Answer draws preferred pool
      (subst (λ n. All (λ x. x < n) draws) (sym h.ranged) d))
call_pool-Pool range (give_back port) pool d h = record {
  ranged = h.ranged;
  well = record {
    in_range = All-without _ port pool.allocated h.well.in_range;
    once = Fresh-without port pool.allocated h.well.once;
  };
}

run_pool-Pool :
    (range : ℕ) (calls : List PoolCall) (pool : PortPool)
    → All (Drawn range) calls
    → Pool range pool
    → Pool range (run_pool calls pool)
unfolding run_pool
run_pool-Pool range [] pool d h = h
run_pool-Pool range (c ∷ cs) pool d h =
    run_pool-Pool range cs (call_pool c pool) d.1 (call_pool-Pool range c pool d.0 h)

-- Over any allocations and releases, in any order, every allocated port is in the range and
-- stands once, provided the random draws are below the range.
pub run_pool-IsPool :
    (calls : List PoolCall) (pool : PortPool)
    → All (Drawn (range_of pool)) calls
    → IsPool pool
    → IsPool (run_pool calls pool)
run_pool-IsPool calls pool d h =
    (run_pool-Pool (range_of pool) calls pool d (record { ranged = refl; well = h })).well
