-- ===== src/DebugStore/Follows.antt =====
-- The debug store follows the log: whatever is appended between its polls.
use roj.Base.{
  ℕ, ◌+◌, ◌≤◌, ◌≡◌, refl, sym, ap, ◌∙◌, true, false, ◌&&◌, List, [], ◌∷◌, ◌++◌, append-nil, ◌==◌,
  length, length-append, take, drop, take-append, take-add, take-append-drop, keep, keep-append,
  is_empty, arith, if_both,
}
use roj.Base.Int.{pred_ℤ}
use roj.SessionLifecycle.{EventsPage}
use roj.DebugStore.{EventStoreState, Views, apply_all, starts_session, receive_page}

module _ {E P : Type 0} (v : Views E P) where
  apply_all-append :
      (p : P) (xs ys : List E) → apply_all v p (xs ++ ys) ≡ apply_all v (apply_all v p xs) ys
  unfolding apply_all
  apply_all-append p [] ys = refl
  apply_all-append p (x ∷ xs) ys = apply_all-append (v.apply_event p x) xs ys

  -- The log begins with the creation of its session, as far as the interface knows its events.
  unfoldable pub Begins : List E → Type 0
  Begins es =
      is_empty (keep v.is_domain_event es) ≡ false
      → starts_session v (keep v.is_domain_event es) ≡ true

  -- The store has what the first `seen` events of the log come to, each once, in order.
  pub record Follows (es : List E) (s : EventStoreState E P) : Type 0 where
    pub seen : ℕ
    pub inside : seen ≤ length es
    pub last_index : s.last_index ≡ pred_ℤ seen
    pub events : s.events ≡ keep v.is_domain_event (take seen es)
    pub projections : s.projections ≡ apply_all v v.initial s.events

  -- What the log gains later does not matter.
  pub Follows-append :
      (es more : List E) (s : EventStoreState E P) → Follows es s → Follows (es ++ more) s
  Follows-append es more s h =
      let total = length-append es more in
      let inside = h.inside in
      record {
        seen = h.seen;
        inside = omega (arith, total, inside);
        last_index = h.last_index;
        events = h.events ∙ ap (keep v.is_domain_event) (sym (take-append h.seen es more h.inside));
        projections = h.projections;
      }

  starts_session-append :
      (xs ys : List E) → is_empty xs ≡ false → starts_session v (xs ++ ys) ≡ starts_session v xs
  starts_session-append [] ys h = absurd (ground (arith, h))
  starts_session-append (x ∷ xs) ys h = refl

  is_empty-append : (xs ys : List E) → is_empty ys ≡ false → is_empty (xs ++ ys) ≡ false
  is_empty-append [] ys h = h
  is_empty-append (x ∷ xs) ys h = refl

  is_empty_front : (xs ys : List E) → is_empty xs ≡ false → is_empty (xs ++ ys) ≡ false
  is_empty_front [] ys h = absurd (ground (arith, h))
  is_empty_front (x ∷ xs) ys h = refl

  pub nothing_in : (xs : List E) → is_empty xs ≡ true → xs ≡ []
  nothing_in [] h = refl
  nothing_in (x ∷ xs) h = absurd (ground (arith, h))

  -- Some of the first events begin as the log does.
  pub starts_session-take :
      (es : List E) (n : ℕ)
      → Begins es
      → is_empty (keep v.is_domain_event (take n es)) ≡ false
      → starts_session v (keep v.is_domain_event (take n es)) ≡ true
  unfolding Begins
  starts_session-take es n h some_kept =
      let first = keep v.is_domain_event (take n es) in
      let rest = keep v.is_domain_event (drop n es) in
      let whole : keep v.is_domain_event es ≡ first ++ rest =
        ap (keep v.is_domain_event) (sym (take-append-drop n es))
        ∙ keep-append v.is_domain_event (take n es) (drop n es) in
      sym (starts_session-append first rest some_kept)
      ∙ ap (starts_session v) (sym whole)
      ∙ h (ap is_empty whole ∙ is_empty_front first rest some_kept)

  -- A page that brings the store on from where it is.
  module _ (es : List E) (s : EventStoreState E P) (h : Follows es s) (page : EventsPage E)
      (count : ℕ) (brought : page.events ≡ take count (drop h.seen es))
      (placed : page.last_index ≡ pred_ℤ (h.seen + count)) (inside : h.seen + count ≤ length es)
      (begins : Begins es) where
    abbrev fresh : List E
    fresh = keep v.is_domain_event page.events

    all_kept : s.events ++ fresh ≡ keep v.is_domain_event (take (h.seen + count) es)
    all_kept =
        ap (λ l. l ++ fresh) h.events
        ∙ ap (λ l. keep v.is_domain_event (take h.seen es) ++ keep v.is_domain_event l) brought
        ∙ sym (keep-append v.is_domain_event (take h.seen es) (take count (drop h.seen es)))
        ∙ ap (keep v.is_domain_event) (sym (take-add h.seen count es))

    with_events :
        (events : List E) (p : P)
        → events ≡ s.events ++ fresh
        → p ≡ apply_all v v.initial events
        → (f : Follows es
            (record s { events = events; last_index = page.last_index; projections = p }))
          × (f.seen ≡ h.seen + count)
    with_events events p e q = (
      record {
        seen = h.seen + count;
        inside = inside;
        last_index = placed;
        events = e ∙ all_kept;
        projections = q;
      },
      refl,
    )

    pub receive_page-Follows : (f : Follows es (receive_page v page s)) × (f.seen ≡ h.seen + count)
    unfolding receive_page
    receive_page-Follows =
        let P = λ (x : EventStoreState E P). (f : Follows es x) × (f.seen ≡ h.seen + count) in
        if_both P (is_empty fresh) _ _
          (λ e.
            with_events s.events s.projections
              (sym (append-nil s.events) ∙ ap (λ l. s.events ++ l) (sym (nothing_in fresh e)))
              h.projections)
          (λ e.
            if_both P (v.agent_count s.projections == 0 && is_empty s.events) _ _
              (λ d.
                if_both P (starts_session v (s.events ++ fresh)) _ _
                  (λ b.
                    with_events (s.events ++ fresh) (apply_all v v.initial (s.events ++ fresh)) refl
                      refl)
                  (λ b.
                    let kept = ap is_empty (sym all_kept) ∙ is_empty-append s.events fresh e in
                    let does =
                      ap (starts_session v) all_kept
                      ∙ starts_session-take es (h.seen + count) begins kept in
                    absurd (ground (arith, b, does))))
              (λ d. with_events (s.events ++ fresh) (apply_all v s.projections fresh) refl (
                ap (λ p. apply_all v p fresh) h.projections
                ∙ sym (apply_all-append v.initial s.events fresh))))
