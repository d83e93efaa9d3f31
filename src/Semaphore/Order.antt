-- ===== src/Semaphore/Order.antt =====
-- At most the limit run at once, no slot is idle while a task waits, and slots are given in order.
use roj.Base.{
  ltb→lt, ℕ, suc, ◌≤◌, ◌<◌, ◌≡◌, refl, sym, ap, subst, Bool, true, false, List, [], ◌∷◌, ◌++◌, ◌==◌,
  ltb, length, arith, append-nil, append_assoc, Bool-cases, inl, inr,
}
use roj.Semaphore.{
  acquire, among, remove_first, on_abort, hand_over, release, World, Call, enter, abort, leave,
  after_release, call, run_calls, idle_world, new,
}

-- The first list is left when elements of the second are dropped.
pub data Sublist : List ℕ → List ℕ → Type 0 where
  done : Sublist [] []
  keeps : (x : ℕ) (xs ys : List ℕ) → Sublist xs ys → Sublist (x ∷ xs) (x ∷ ys)
  drops : (y : ℕ) (xs ys : List ℕ) → Sublist xs ys → Sublist xs (y ∷ ys)

pub record Inv (w : World) : Type 0 where
  pub counted : w.semaphore.active ≡ length w.holding
  pub bounded : w.semaphore.active ≤ w.semaphore.limit
  pub busy : w.semaphore.active < w.semaphore.limit → w.semaphore.waiters ≡ []
  pub served_first : Sublist (w.served ++ w.semaphore.waiters) w.entered

snoc : (x : ℕ) (xs ys : List ℕ) → Sublist xs ys → Sublist (xs ++ (x ∷ [])) (ys ++ (x ∷ []))
snoc x _ _ done = keeps x [] [] done
snoc x _ _ (keeps y xs ys h) = keeps y _ _ (snoc x xs ys h)
snoc x _ _ (drops y xs ys h) = drops y _ _ (snoc x xs ys h)

Sublist_refl : (xs : List ℕ) → Sublist xs xs
Sublist_refl [] = done
Sublist_refl (x ∷ xs) = keeps x xs xs (Sublist_refl xs)

remove_first-Sublist : (task : ℕ) (xs : List ℕ) → Sublist (remove_first task xs) xs
remove_first-Sublist task [] = done
remove_first-Sublist task (x ∷ xs) = elim (Bool-cases (x == task)) [
  | inl e ↦ rw (remove_first, e) (drops x xs xs (Sublist_refl xs))
  | inr e ↦ rw (remove_first, e) (keeps x _ xs (remove_first-Sublist task xs))
]

prefixed : (xs ys zs : List ℕ) → Sublist ys zs → Sublist (xs ++ ys) (xs ++ zs)
prefixed [] ys zs h = h
prefixed (x ∷ xs) ys zs h = keeps x _ _ (prefixed xs ys zs h)

Sublist_trans : (xs ys zs : List ℕ) → Sublist xs ys → Sublist ys zs → Sublist xs zs
Sublist_trans xs _ _ h done = h
Sublist_trans xs _ _ h (drops z ys zs g) = drops z xs zs (Sublist_trans xs ys zs h g)
Sublist_trans _ _ _ (keeps x xs ys h) (keeps _ _ zs g) = keeps x xs zs (Sublist_trans xs ys zs h g)
Sublist_trans _ _ _ (drops x xs ys h) (keeps _ _ zs g) = drops x xs zs (Sublist_trans xs ys zs h g)

length-remove_first :
    (task : ℕ) (xs : List ℕ)
    → among task xs ≡ true
    → suc (length (remove_first task xs)) ≡ length xs
length-remove_first task [] h = absurd (ground (arith, h))
length-remove_first task (x ∷ xs) h = elim (Bool-cases (x == task)) [
  | inl e ↦ rw (remove_first, e) refl
  | inr e ↦ rw (remove_first, e) (ap (λ n. suc n) (length-remove_first task xs (rw e at h)))
]

enter-Inv : (task : ℕ) (aborted : Bool) (w : World) → Inv w → Inv (call (enter task aborted) w)
unfolding call acquire
enter-Inv task true w h = record {
  counted = h.counted;
  bounded = h.bounded;
  busy = h.busy;
  served_first = h.served_first;
}
enter-Inv task false w h = elim (Bool-cases (ltb w.semaphore.active w.semaphore.limit)) [
  | inl e ↦
      let less = ltb→lt w.semaphore.active w.semaphore.limit e in
      let idle = h.busy less in
      let counted = h.counted in
      rw (call, acquire, e)
        (record {
          counted = omega arith;
          bounded = omega arith;
          busy = λ q. idle;
          served_first =
              subst (λ l. Sublist ((w.served ++ (task ∷ [])) ++ l) (w.entered ++ (task ∷ [])))
                (sym idle)
                (subst (λ l. Sublist l (w.entered ++ (task ∷ [])))
                  (sym (append-nil (w.served ++ (task ∷ []))))
                  (snoc task w.served w.entered (
                    subst (λ l. Sublist l w.entered) (append-nil w.served)
                      (subst (λ l. Sublist (w.served ++ l) w.entered) idle h.served_first))));
        })
  | inr e ↦
      let bounded = h.bounded in
      rw (call, acquire, e)
        (record {
          counted = h.counted;
          bounded = h.bounded;
          busy = λ q. absurd (ground (arith, e, q));
          served_first =
              subst (λ l. Sublist l (w.entered ++ (task ∷ [])))
                (append_assoc w.served w.semaphore.waiters (task ∷ []))
                (snoc task _ w.entered h.served_first);
        })
]

abort-Inv : (task : ℕ) (w : World) → Inv w → Inv (call (abort task) w)
unfolding call on_abort
abort-Inv task w h = elim (Bool-cases (among task w.semaphore.waiters)) [
  | inl e ↦
      rw (call, on_abort, e)
        (record {
          counted = h.counted;
          bounded = h.bounded;
          busy = λ q. ap (remove_first task) (h.busy q);
          served_first =
              Sublist_trans _ _ w.entered
                (prefixed w.served _ w.semaphore.waiters
                  (remove_first-Sublist task w.semaphore.waiters))
                h.served_first;
        })
  | inr e ↦
      rw (call, on_abort, e)
        (record {
          counted = h.counted;
          bounded = h.bounded;
          busy = h.busy;
          served_first = h.served_first;
        })
]

handed-Inv :
    (w : World) (others waiters : List ℕ)
    → suc (length others) ≡ length w.holding
    → w.semaphore.waiters ≡ waiters
    → Inv w
    → Inv (after_release (hand_over waiters w.semaphore) others w)
handed-Inv w others [] n e h =
    let counted = h.counted in
    let bounded = h.bounded in
    record {
      counted = omega arith;
      bounded = omega arith;
      busy = λ q. e;
      served_first = h.served_first;
    }
handed-Inv w others (next ∷ rest) n e h =
    let counted = h.counted in
    record {
      counted = omega arith;
      bounded = h.bounded;
      busy = λ q. absurd (let none_wait = h.busy q in ground (arith, none_wait, e));
      served_first =
          subst (λ l. Sublist l w.entered) (sym (append_assoc w.served (next ∷ []) rest))
            (subst (λ l. Sublist (w.served ++ l) w.entered) e h.served_first);
    }

leave-Inv : (task : ℕ) (w : World) → Inv w → Inv (call (leave task) w)
unfolding call release
leave-Inv task w h = elim (Bool-cases (among task w.holding)) [
  | inl e ↦
      rw (call, e)
        (handed-Inv w (remove_first task w.holding) w.semaphore.waiters
          (length-remove_first task w.holding e) refl h)
  | inr e ↦ rw (call, e) h
]

call-Inv : (c : Call) (w : World) → Inv w → Inv (call c w)
call-Inv (enter task aborted) w h = enter-Inv task aborted w h
call-Inv (abort task) w h = abort-Inv task w h
call-Inv (leave task) w h = leave-Inv task w h

run_calls-Inv : (cs : List Call) (w : World) → Inv w → Inv (run_calls cs w)
unfolding run_calls
run_calls-Inv [] w h = h
run_calls-Inv (c ∷ cs) w h = run_calls-Inv cs (call c w) (call-Inv c w h)

-- From an idle semaphore, over any arrivals, aborts and releases: the active count is the number of
-- tasks that hold a slot and at most the limit, no task waits while a slot is free, and the tasks
-- that got a slot, followed by those that wait, stand in the order in which they came.
pub run_calls-idle : (cs : List Call) (limit : ℕ) → Inv (run_calls cs (idle_world (new limit)))
run_calls-idle cs limit =
    run_calls-Inv cs (idle_world (new limit))
      (record { counted = refl; bounded = omega arith; busy = λ q. refl; served_first = done })
