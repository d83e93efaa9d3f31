-- ===== src/Examples/Activity.antt =====
-- The theorems on a runtime's leases, at an operation that ends before the runtime unloads.
use roj.Base.{ℕ, ◌≤◌, ◌⊎◌, ◌≡◌, refl, List, [], ◌∷◌, true, insert, remove, lookup}
use roj.Activity.{
  fresh_activity, next_number, take_lease, release, try_begin_unload, try_operation, try_acquire_in,
  Activity,
}
use roj.Activity.Leases.{Inv, open_leases}
use roj.Activity.Calls.{Call, legacy_teardown, operate, acquire_in, free, run_calls}
use roj.Activity.Preserved.{run_calls-fresh}
use roj.Activity.Unload.{AtRoot, InScope, has_teardown, try_begin_unload-idle}

abbrev calls : List (ℕ × Call)
calls =
    (1, operate "agent:a1:step")
    ∷ (2, acquire_in 0 "agent:a1:scheduled")
    ∷ (3, free 0)
    ∷ (4, free 1)
    ∷ (5, free 1)
    ∷ []

run_calls-fresh_example : Inv (run_calls calls (fresh_activity 0))
run_calls-fresh_example = run_calls-fresh calls 0

abbrev idle_runtime : Activity
idle_runtime = run_calls calls (fresh_activity 0)

unloads : (try_begin_unload idle_runtime).0 ≡ true
unfolding run_calls try_begin_unload take_lease insert lookup remove release try_acquire_in
    try_operation
unloads = refl

abbrev later_calls : List (ℕ × Call)
later_calls = (6, legacy_teardown) ∷ (7, operate "agent:a1:step") ∷ (8, acquire_in 2 "flush") ∷ []

try_begin_unload-idle_example :
    let later = run_calls later_calls (try_begin_unload idle_runtime).1 in
    (open_leases idle_runtime.leases ≡ 0)
    × AtRoot later
    × (InScope 0 later
        ⊎ ((next_number idle_runtime.leases ≤ 0) × (has_teardown later_calls ≡ true)))
try_begin_unload-idle_example =
    try_begin_unload-idle idle_runtime later_calls 0 (run_calls-fresh calls 0) unloads
