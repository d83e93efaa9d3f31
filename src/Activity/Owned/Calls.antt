-- ===== src/Activity/Owned/Calls.antt =====
-- What the calls on a runtime do to a lease that is held for a reason.
use roj.Base.{
  ℕ, ◌≡◌, refl, sym, subst, ◌∙◌, String, Bool, true, false, not, ◌&&◌, ◌||◌, Option, none, some,
  List, if◌then◌else◌, ◌==◌, ◌=ₛ◌, arith, Option-cases, Bool-cases, inl, inr, ok, err,
}
use roj.Activity.{
  Lease, Activity, next_number, find_lease, close_lease, take_lease, release, taken, try_acquire,
  try_operation, try_acquire_in, try_operation_in, begin_parking, begin_teardown,
  begin_legacy_teardown, teardown_in, revoke, try_begin_unload, begin_forced_unload, mark_disposed,
  is_ready, is_parking, is_unloading, is_revoked, allowed,
}
use roj.Activity.Calls.{
  Call, acquire, operate, acquire_in, operate_in, free, park, teardown, legacy_teardown, revoke_all,
  unload, force_unload, dispose, after_guard, after_taking, perform,
}
use roj.Activity.Leases.{open_for, open_for-close}
use roj.Activity.Owned.{
  is_other, Owned, Numbered-close, Avoids-close, Holds-close, Holds-take, Avoids-take,
  find_lease-take_new,
}

-- A call that neither takes nor releases a lease with the reason.
abbrev pub is_foreign : String → Activity → Call → Bool
is_foreign r a (acquire reason) = not (reason =ₛ r)
is_foreign r a (operate reason) = not (reason =ₛ r)
is_foreign r a (acquire_in scope reason) = not (reason =ₛ r)
is_foreign r a (operate_in scope reason) = not (reason =ₛ r)
is_foreign r a (free lease) = is_other r (find_lease lease a.leases)
is_foreign r a teardown = not ("teardown" =ₛ r)
is_foreign r a legacy_teardown = not ("teardown" =ₛ r)
is_foreign r a _ = true

abbrev new_lease : ℕ → String → Bool → Lease
new_lease number reason scoped = record {
  number = number;
  reason = reason;
  released = false;
  live = scoped;
}

module _ (r : String) (other : Option ℕ) where
  pub take_foreign-Owned :
      (held : Option ℕ) (now : ℕ) (scoped : Bool) (reason : String) (a : Activity)
      → (reason =ₛ r) ≡ false
      → Owned r held other a.leases
      → Owned r held other (take_lease now scoped reason a).1.leases
  unfolding take_lease
  take_foreign-Owned held now scoped reason a e h =
      let x = new_lease (next_number a.leases) reason scoped in
      record {
        numbered = (refl, h.numbered);
        counted = rw (open_for, e) h.counted;
        holds = Holds-take r held x a.leases h.numbered refl h.holds;
        avoids = Avoids-take r other x a.leases h.numbered refl h.avoids;
      }

  pub take_own-Owned :
      (now : ℕ) (scoped : Bool) (reason : String) (a : Activity)
      → (reason =ₛ r) ≡ true
      → Owned r none other a.leases
      → Owned r (some (next_number a.leases)) other (take_lease now scoped reason a).1.leases
  unfolding take_lease
  take_own-Owned now scoped reason a e h =
      let x = new_lease (next_number a.leases) reason scoped in
      record {
        numbered = (refl, h.numbered);
        counted = rw (open_for, e) (let c = h.counted in ground (arith, c));
        holds = (x, find_lease-take_new x a.leases, refl, e);
        avoids = Avoids-take r other x a.leases h.numbered refl h.avoids;
      }

  -- The lease that is taken for another reason becomes the one that is avoided.
  pub take_other-Owned :
      (held : Option ℕ) (now : ℕ) (scoped : Bool) (reason : String) (a : Activity)
      → (reason =ₛ r) ≡ false
      → Owned r held other a.leases
      → Owned r held (some (next_number a.leases)) (take_lease now scoped reason a).1.leases
  unfolding take_lease
  take_other-Owned held now scoped reason a e h =
      let taken = take_foreign-Owned held now scoped reason a e h in
      let x = new_lease (next_number a.leases) reason scoped in
      record {
        numbered = taken.numbered;
        counted = taken.counted;
        holds = taken.holds;
        avoids = (x, find_lease-take_new x a.leases, e);
      }

  -- A lease is closed that is not the held one.
  close_foreign-Owned :
      (held : Option ℕ) (k : ℕ) (ls : List Lease) (l : Lease)
      → find_lease k ls ≡ some l
      → l.released ≡ false
      → (l.reason =ₛ r) ≡ false
      → Owned r held other ls
      → Owned r held other (close_lease k ls)
  close_foreign-Owned held k ls l f e d h = record {
    numbered = Numbered-close k ls h.numbered;
    counted = let c = open_for-close k ls l r f e in sym (rw d at c) ∙ h.counted;
    holds = Holds-close r held k ls h.holds (rw (f, d) refl);
    avoids = Avoids-close r other k ls h.avoids;
  }

  pub release_foreign-Owned :
      (held : Option ℕ) (now k : ℕ) (a : Activity)
      → is_other r (find_lease k a.leases) ≡ true
      → Owned r held other a.leases
      → Owned r held other (release now k a).leases
  unfolding release
  release_foreign-Owned held now k a o h = elim (Option-cases (find_lease k a.leases)) [
    | inl n ↦ rw (release, n) h
    | inr (l, n) ↦ elim (Bool-cases l.released) [
      | inl e ↦ rw (release, n, e) h
      | inr e ↦
          let d = rw n at o in
          rw (release, n, e) (close_foreign-Owned held k a.leases l n e (ground (arith, d)) h)
    ]
  ]

  pub release_own-Owned :
      (now k : ℕ) (a : Activity)
      → Owned r (some k) other a.leases
      → Owned r none other (release now k a).leases
  unfolding release
  release_own-Owned now k a h =
      let (l, f, e, d) = h.holds in
      rw (release, f, e)
        (record {
          numbered = Numbered-close k a.leases h.numbered;
          counted =
              let c = open_for-close k a.leases l r f e in
              let now_closed = rw d at c in let q = h.counted in ground (arith, now_closed, q);
          holds = tt;
          avoids = Avoids-close r other k a.leases h.avoids;
        })

  taken_if-Owned :
      (b scoped : Bool) (held : Option ℕ) (now : ℕ) (reason : String) (a : Activity)
      → not (reason =ₛ r) ≡ true
      → Owned r held other a.leases
      → Owned r held other
          (if b then taken (take_lease now scoped reason a) else (none, a)).1.leases
  unfolding take_lease
  taken_if-Owned true scoped held now reason a e h =
      take_foreign-Owned held now scoped reason a (ground (arith, e)) h
  taken_if-Owned false scoped held now reason a e h = h

  teardown_in-Owned :
      (b : Bool) (held : Option ℕ) (now : ℕ) (a : Activity)
      → not ("teardown" =ₛ r) ≡ true
      → Owned r held other a.leases
      → Owned r held other (after_taking a (teardown_in b now a)).leases
  unfolding take_lease
  teardown_in-Owned true held now a e h =
      take_foreign-Owned held now true "teardown" a (ground (arith, e)) h
  teardown_in-Owned false held now a e h = h

  leases-parked :
      (b : Bool) (a x : Activity)
      → x.leases ≡ a.leases
      → (after_guard a (if b then ok x else err a.state)).leases ≡ a.leases
  leases-parked true a x e = e
  leases-parked false a x e = refl

  leases-if :
      (b : Bool) (ls : List Lease) (x y : Activity)
      → x.leases ≡ ls
      → y.leases ≡ ls
      → (if b then x else y).leases ≡ ls
  leases-if true ls x y e d = e
  leases-if false ls x y e d = d

  -- Whatever others do with the runtime, the held lease stays as it is.
  pub perform-Owned :
      (held : Option ℕ) (now : ℕ) (c : Call) (a : Activity)
      → is_foreign r a c ≡ true
      → Owned r held other a.leases
      → Owned r held other (perform now c a).leases
  unfolding perform try_acquire try_operation try_acquire_in try_operation_in begin_parking
      begin_teardown begin_legacy_teardown revoke try_begin_unload begin_forced_unload mark_disposed
  perform-Owned held now (acquire reason) a e h =
      taken_if-Owned (is_ready a.state) false held now reason a e h
  perform-Owned held now (operate reason) a e h =
      taken_if-Owned (is_ready a.state) true held now reason a e h
  perform-Owned held now (acquire_in scope reason) a e h =
      taken_if-Owned (allowed scope a) false held now reason a e h
  perform-Owned held now (operate_in scope reason) a e h =
      taken_if-Owned (allowed scope a) true held now reason a e h
  perform-Owned held now (free lease) a e h = release_foreign-Owned held now lease a e h
  perform-Owned held now park a e h =
      subst (Owned r held other) (sym (leases-parked (is_ready a.state) a _ refl)) h
  perform-Owned held now teardown a e h = teardown_in-Owned (is_parking a.state) held now a e h
  perform-Owned held now legacy_teardown a e h =
      teardown_in-Owned (is_unloading a.state) held now a e h
  perform-Owned held now revoke_all a e h = h
  perform-Owned held now unload a e h =
      elim (Bool-cases (is_ready a.state && a.active_count == 0)) [
        | inl b ↦ rw (perform, try_begin_unload, b) h
        | inr b ↦ rw (perform, try_begin_unload, b) h
      ]
  perform-Owned held now force_unload a e h =
      subst (Owned r held other)
        (sym (leases-if (is_parking a.state || is_ready a.state) a.leases _ a refl refl)) h
  perform-Owned held now dispose a e h =
      subst (Owned r held other) (sym (leases-if (is_revoked a.state) a.leases a _ refl refl)) h
