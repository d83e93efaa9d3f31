-- ===== src/Agent/Schedule/Kept.antt =====
-- The calls of an agent's runs keep what holds of its scheduling.
use roj.Base.{
  ℕ, suc, ◌+◌, ◌≡◌, refl, subst, ap, String, Bool, true, false, ◌||◌, Option, some, List,
  if◌then◌else◌, ◌=ₛ◌, ◌==◌, ◌+ₛ◌, is_some, if_ok, eq_iff, arith, Bool-cases, if_both, inl, inr, ok,
}
use roj.WakeKey.{AgentWakeKind, debounce, retry}
use roj.Activity.{Lease, find_lease, Activity, is_ready, take_lease, try_operation}
use roj.Activity.Owned.{Owned, is_other}
use roj.Activity.Owned.Calls.{take_other-Owned}
use roj.Agent.Schedule.{
  arm_wake, Scheduling, Moment, ScheduleConfig, lease_reason, scheduled_reason, step_reason,
  check_reason, drop_scheduled_lease, begin_continue, begin_step, in_step, end_step, end_continue,
  schedule_error_retry, delivered, deliver_wake,
}
use roj.Agent.Schedule.Leased.{
  is_halted, OwnedIn, IsLeased, release_held-Owned, release_other-Owned, enqueue-IsLeased,
  schedule_processing-IsLeased,
}

size : String → ℕ
size String.[] = 0
size (String.◌∷◌ c s) = suc (size s)

size-append : (s t : String) → size (s +ₛ t) ≡ size s + size t
unfolding size
size-append String.[] t = omega arith
size-append (String.◌∷◌ c s) t = let ih = size-append s t in omega (arith, ih)

-- Reasons of one agent that end in texts of different lengths differ.
other_reason :
    (c : ScheduleConfig) (a b : String)
    → (size a == size b) ≡ false
    → (lease_reason c a =ₛ lease_reason c b) ≡ false
unfolding size
other_reason c a b h = elim (Bool-cases (lease_reason c a =ₛ lease_reason c b)) [
  | inl e ↦
      let same = ap size ((eq_iff (lease_reason c a) (lease_reason c b)).0 e) in
      let left = size-append c.id a in
      let right = size-append c.id b in absurd (ground (arith, h, same, left, right))
  | inr e ↦ e
]

step_apart : (c : ScheduleConfig) → (step_reason c =ₛ scheduled_reason c) ≡ false
unfolding size
step_apart c = other_reason c ":step" ":scheduled" refl

pub check_apart : (c : ScheduleConfig) → (check_reason c =ₛ scheduled_reason c) ≡ false
unfolding size
check_apart c = other_reason c ":debounce-check" ":scheduled" refl

pub avoided :
    (r : String) (held : Option ℕ) (k : ℕ) (ls : List Lease)
    → Owned r held (some k) ls
    → is_other r (find_lease k ls) ≡ true
avoided r held k ls h = let (l, f, e) = h.avoids in rw (f, e) refl

module _ (c : ScheduleConfig) (m : Moment) where
  pub dropped-IsLeased :
      (s : Scheduling)
      → OwnedIn c s
      → (s.scheduled ≡ true → is_halted s ≡ false)
      → IsLeased c (drop_scheduled_lease m s)
  unfolding drop_scheduled_lease
  dropped-IsLeased s h i = record {
    owned =
        release_held-Owned (scheduled_reason c) s.scheduled_lease s.step_operation m.now s.activity
          h;
    leased = λ e. absurd (ground (arith, e));
    idle = i;
  }

  free_lease :
      (s : Scheduling) → is_some (drop_scheduled_lease m s).scheduled_lease ≡ true → false ≡ true
  unfolding drop_scheduled_lease
  free_lease s e = e

  pub begin_continue-IsLeased :
      (s : Scheduling)
      → OwnedIn c s
      → (s.scheduled ≡ true → is_halted s ≡ false)
      → IsLeased c (begin_continue m s).1
  unfolding begin_continue
  begin_continue-IsLeased s h i =
      let free = dropped-IsLeased s h i in
      if_both (λ (x : Bool × Scheduling). IsLeased c x.1)
        (s.processing || m.closed || s.locally_stopped) _ _ (λ e. free)
        (λ e. record {
          owned = free.owned;
          leased = free_lease s;
          idle = λ d. absurd (ground (arith, d));
        })

  pub in_step-IsLeased : (s : Scheduling) → IsLeased c s → IsLeased c (begin_step c m s).1
  unfolding begin_step try_operation take_lease
  in_step-IsLeased s h =
      if_both (λ (o : Option ℕ × Activity). IsLeased c (in_step s o).1) (is_ready s.activity.state)
        _ _
        (λ e. record {
          owned =
              take_other-Owned (scheduled_reason c) s.step_operation s.scheduled_lease m.now true
                (step_reason c) s.activity (step_apart c) h.owned;
          leased = h.leased;
          idle = h.idle;
        })
        (λ e. h)

  pub end_step-IsLeased : (s : Scheduling) → IsLeased c s → IsLeased c (end_step m s)
  unfolding end_step
  end_step-IsLeased s h = record {
    owned =
        release_other-Owned (scheduled_reason c) s.scheduled_lease s.step_operation m.now s.activity
          h.owned;
    leased = h.leased;
    idle = h.idle;
  }

  pub end_continue-IsLeased : (s : Scheduling) → IsLeased c s → IsLeased c (end_continue c m s)
  unfolding end_continue
  end_continue-IsLeased s h =
      let quiet : s.scheduled ≡ true → is_halted (record s { processing = false }) ≡ false =
        λ e. let q = h.idle e in ground (arith, q) in
      if_both (IsLeased c) s.pending_reschedule _ _
        (λ e.
          schedule_processing-IsLeased c m
            (record s { processing = false; pending_reschedule = false })
            (record { owned = h.owned; leased = h.leased; idle = quiet }))
        (λ e. record { owned = h.owned; leased = h.leased; idle = quiet })

  pub error_retry-IsLeased :
      (delay_ms : ℕ) (s : Scheduling)
      → IsLeased c s
      → IsLeased c (schedule_error_retry m delay_ms s)
  unfolding schedule_error_retry
  error_retry-IsLeased delay_ms s h =
      if_both (IsLeased c) s.error_retry_armed _ _ (λ e. h)
        (λ e.
          if_both (IsLeased c) m.closed _ _ (λ d. h)
            (λ d.
              if_both (IsLeased c) s.aborted _ _ (λ a. h)
                (λ a.
                  enqueue-IsLeased c m (arm_wake retry delay_ms)
                    (record s { error_retry_armed = true })
                    (record { owned = h.owned; leased = h.leased; idle = h.idle }))))

  delivered-IsLeased :
      (kind : AgentWakeKind) (s : Scheduling) → IsLeased c s → IsLeased c (delivered c m kind s)
  delivered-IsLeased debounce s h =
      begin_continue-IsLeased (record s { scheduled = false }) h.owned
        (λ e. absurd (ground (arith, e)))
  delivered-IsLeased retry s h =
      schedule_processing-IsLeased c m (record s { error_retry_armed = false })
        (record { owned = h.owned; leased = h.leased; idle = h.idle })

  pub deliver_wake-IsLeased :
      (kind : AgentWakeKind) (s t : Scheduling)
      → deliver_wake c m kind s ≡ ok t
      → IsLeased c s
      → IsLeased c t
  unfolding deliver_wake
  deliver_wake-IsLeased kind s t e h =
      subst (IsLeased c)
        (if_ok (is_ready s.activity.state) (if s.aborted then s else delivered c m kind s) t
          s.activity.state e).1
        (if_both (IsLeased c) s.aborted _ _ (λ a. h) (λ a. delivered-IsLeased kind s h))
