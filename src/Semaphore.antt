-- ===== src/Semaphore.antt =====
-- `Semaphore` of packages/sdk/src/lib/utils/concurrency.ts. A task is known by a number. `acquire`
-- answers at once or queues the task; the listener of an abort signal and `release` are calls of
-- their own. `World` adds the tasks that hold a slot and the order of events, which `run` keeps in
-- its callers.
pub mod Order
use roj.Base.{
  ℕ, suc, ◌+◌, ◌-◌, Bool, true, false, not, Option, none, some, List, [], ◌∷◌, ◌++◌, if◌then◌else◌,
  ◌==◌, ltb, leb, any, keep,
}

pub record Semaphore : Type 0 where
  pub limit : ℕ
  pub active : ℕ
  pub waiters : List ℕ

-- The constructor throws at a limit below 1.
abbrev pub new : ℕ → Semaphore
new limit = record { limit = limit; active = 0; waiters = [] }

unfoldable pub new_semaphore : ℕ → Option Semaphore
new_semaphore limit = if ltb limit 1 then none else some (new limit)

pub data Acquired : Type 0 where
  rejected granted waiting : Acquired

unfoldable pub acquire : (task : ℕ) (aborted : Bool) → Semaphore → Acquired × Semaphore
acquire task aborted s =
    if aborted
    then (rejected, s)
    else if ltb s.active s.limit
    then (granted, record s { active = s.active + 1 })
    else (waiting, record s { waiters = s.waiters ++ (task ∷ []) })

abbrev pub among : ℕ → List ℕ → Bool
among task = any λ t. t == task

abbrev pub remove_first : ℕ → List ℕ → List ℕ
remove_first task [] = []
remove_first task (t ∷ ts) = let rest = remove_first task ts in if t == task then ts else t ∷ rest

-- `onAbort` of a waiter: whether its promise is rejected.
unfoldable pub on_abort : ℕ → Semaphore → Bool × Semaphore
on_abort task s =
    if among task s.waiters
    then (true, record s { waiters = remove_first task s.waiters })
    else (false, s)

abbrev pub hand_over : List ℕ → Semaphore → Option ℕ × Semaphore
hand_over [] s = (none, record s { active = s.active - 1 })
hand_over (next ∷ rest) s = (some next, record s { waiters = rest })

-- The task that the slot goes to.
unfoldable pub release : Semaphore → Option ℕ × Semaphore
release s = hand_over s.waiters s

pub record World : Type 0 where
  pub semaphore : Semaphore
  pub holding : List ℕ
  -- Every task that was not rejected at its call, and every task that got a slot, oldest first.
  pub entered : List ℕ
  pub served : List ℕ

pub data Call : Type 0 where
  enter : (task : ℕ) (aborted : Bool) → Call
  abort leave : (task : ℕ) → Call

abbrev pub after_acquire : ℕ → Acquired × Semaphore → World → World
after_acquire task (rejected, s) w = record w { semaphore = s }
after_acquire task (granted, s) w = record {
  semaphore = s;
  holding = task ∷ w.holding;
  entered = w.entered ++ (task ∷ []);
  served = w.served ++ (task ∷ []);
}
after_acquire task (waiting, s) w = record w { semaphore = s; entered = w.entered ++ (task ∷ []) }

abbrev pub after_release : Option ℕ × Semaphore → List ℕ → World → World
after_release (none, s) others w = record w { semaphore = s; holding = others }
after_release (some next, s) others w = record w {
  semaphore = s;
  holding = next ∷ others;
  served = w.served ++ (next ∷ []);
}

-- `run`: a task releases what it acquired, once.
unfoldable pub call : Call → World → World
unfolding acquire on_abort release
call (enter task aborted) w = after_acquire task (acquire task aborted w.semaphore) w
call (abort task) w = record w { semaphore = (on_abort task w.semaphore).1 }
call (leave task) w =
    if among task w.holding
    then after_release (release w.semaphore) (remove_first task w.holding) w
    else w

unfoldable pub run_calls : List Call → World → World
unfolding call
run_calls [] w = w
run_calls (c ∷ cs) w = run_calls cs (call c w)

abbrev pub idle_world : Semaphore → World
idle_world s = record { semaphore = s; holding = []; entered = []; served = [] }
