-- ===== src/Ports.antt =====
-- packages/sdk/src/plugins/services/port-pool.ts. The set of allocated ports is a list without
-- repetitions, newest first; the random probes are a list of draws, each below the range.
pub mod Laws
pub mod Calls
use roj.Base.{
  ℕ, zero, suc, ◌+◌, ◌-◌, ◌<◌, Bool, true, false, not, ◌&&◌, ◌||◌, Option, none, some, List, [],
  ◌∷◌, if◌then◌else◌, ◌==◌, ltb, leb, any, keep, length,
}

pub record PortPool : Type 0 where
  pub min_port : ℕ
  pub max_port : ℕ
  pub allocated : List ℕ

abbrev pub default_pool : PortPool
default_pool = record { min_port = 10000; max_port = 49151; allocated = [] }

abbrev pub has : ℕ → List ℕ → Bool
has port = any λ p. p == port

abbrev pub add : ℕ → PortPool → PortPool
add port pool = record pool { allocated = port ∷ pool.allocated }

unfoldable pub try_allocate : ℕ → PortPool → Bool × PortPool
try_allocate port pool =
    if ltb port pool.min_port || ltb pool.max_port port
    then (false, pool)
    else if has port pool.allocated
    then (false, pool)
    else (true, add port pool)

abbrev pub max_attempts : ℕ
max_attempts = 100

-- `this.maxPort - this.minPort + 1`, with `minPort` at most one above `maxPort`.
abbrev pub range_of : PortPool → ℕ
range_of pool = pool.max_port + 1 - pool.min_port

-- The probes that are left, as `Math.floor(Math.random() * range)` draws them.
unfoldable pub probe : List ℕ → PortPool → Option ℕ
probe [] pool = none
probe (draw ∷ draws) pool =
    let rest = probe draws pool in
    if has (pool.min_port + draw) pool.allocated then rest else some (pool.min_port + draw)

-- The linear scan from a port on, by the ports left.
unfoldable pub scan : ℕ → ℕ → List ℕ → Option ℕ
scan zero port taken = none
scan (suc left) port taken =
    let rest = scan left (suc port) taken in if has port taken then rest else some port

abbrev pub first_of : Option ℕ → Option ℕ → Option ℕ
first_of none o = o
first_of (some p) o = some p

abbrev pub give : Option ℕ → PortPool → Option ℕ × PortPool
give none pool = (none, pool)
give (some port) pool = (some port, add port pool)

-- `draws` holds one draw for each of the 100 attempts.
unfoldable pub allocate : List ℕ → PortPool → Option ℕ × PortPool
unfolding probe scan
allocate draws pool =
    if leb (range_of pool) (length pool.allocated)
    then (none, pool)
    else give (first_of (probe draws pool) (scan (range_of pool) pool.min_port pool.allocated)) pool

abbrev pub prefer : List ℕ → ℕ → Bool × PortPool → Option ℕ × PortPool
prefer draws port (true, now) = (some port, now)
prefer draws port (false, now) = allocate draws now

unfoldable pub allocate_preferred : List ℕ → Option ℕ → PortPool → Option ℕ × PortPool
unfolding try_allocate allocate
allocate_preferred draws none pool = allocate draws pool
allocate_preferred draws (some port) pool = prefer draws port (try_allocate port pool)

unfoldable pub release_port : ℕ → PortPool → PortPool
release_port port pool = record pool { allocated = keep (λ p. not (p == port)) pool.allocated }
