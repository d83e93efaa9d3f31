-- ===== src/SessionLifecycle/Cuts.antt =====
-- The matches of a request, cut off after some of them.
use roj.Base.{
  ℕ, zero, suc, ◌+◌, ◌≤◌, ◌<◌, ◌≡◌, refl, sym, ap, ◌∙◌, String, true, false, Option, some, List, [],
  ◌∷◌, map, length, take, keep, arith, Bool-cases, inl, inr,
}
use roj.Base.Int.{ℤ, pos, pred_ℤ, next_ℕ}
use roj.SessionLifecycle.{EventsQuery, last_of, is_match, matched}

last_of-cons :
    {A : Type 0} (x y : A) (xs : List A) → last_of xs ≡ some y → last_of (x ∷ xs) ≡ some y
last_of-cons x y [] h = absurd (ground (arith, h))
last_of-cons x y (z ∷ zs) h = h

pred_suc : (n : ℕ) → pred_ℤ (n + 1) ≡ pos n
pred_suc n = let e : n + 1 ≡ suc n = omega arith in ap pred_ℤ e

module _ {E : Type 0} (type_of : E → String) (agent_of : E → Option String) (q : EventsQuery) where
  -- A page that is cut off after `k` matches stands for the events up to the last of them.
  pub record Cut (k from : ℕ) (xs : List E) : Type 0 where
    pub count : ℕ
    pub some_count : 0 < count
    pub within : count ≤ length xs
    pub shown :
        map (λ (x : E × ℤ). x.0) (take k (matched type_of agent_of q (pos from) xs))
        ≡ keep (is_match type_of agent_of q) (take count xs)
    pub last_at :
        (e : E) × (last_of (take k (matched type_of agent_of q (pos from) xs))
          ≡ some (e, pred_ℤ (from + count)))

  pub matched-keep :
      (index : ℤ) (xs : List E)
      → map (λ (x : E × ℤ). x.0) (matched type_of agent_of q index xs)
        ≡ keep (is_match type_of agent_of q) xs
  unfolding matched
  matched-keep index [] = refl
  matched-keep index (x ∷ xs) =
      let ih = matched-keep (pos (next_ℕ index)) xs in
      elim (Bool-cases (is_match type_of agent_of q x)) [
        | inl e ↦ rw (matched, e, ih)
        | inr e ↦ rw (matched, e, ih)
      ]

  skipped :
      (from : ℕ) (x : E) (xs : List E)
      → is_match type_of agent_of q x ≡ false
      → matched type_of agent_of q (pos from) (x ∷ xs)
        ≡ matched type_of agent_of q (pos (from + 1)) xs
  unfolding matched
  skipped from x xs e = rw (matched, e)

  taken :
      (from : ℕ) (x : E) (xs : List E)
      → is_match type_of agent_of q x ≡ true
      → matched type_of agent_of q (pos from) (x ∷ xs)
        ≡ (x, pos from) ∷ matched type_of agent_of q (pos (from + 1)) xs
  unfolding matched
  taken from x xs e = rw (matched, e)

  keep_skipped :
      (x : E) (xs : List E)
      → is_match type_of agent_of q x ≡ false
      → keep (is_match type_of agent_of q) (x ∷ xs) ≡ keep (is_match type_of agent_of q) xs
  keep_skipped x xs e = rw e

  keep_taken :
      (x : E) (xs : List E)
      → is_match type_of agent_of q x ≡ true
      → keep (is_match type_of agent_of q) (x ∷ xs) ≡ x ∷ keep (is_match type_of agent_of q) xs
  keep_taken x xs e = rw e

  skip-Cut :
      (k from : ℕ) (x : E) (xs : List E)
      → is_match type_of agent_of q x ≡ false
      → Cut k (from + 1) xs
      → Cut k from (x ∷ xs)
  skip-Cut k from x xs e r =
      let n = r.count in
      let within = r.within in
      let total : from + 1 + n ≡ from + suc n = omega arith in
      record {
        count = suc n;
        some_count = omega arith;
        within = omega (arith, within);
        shown =
            ap (λ l. map (λ (y : E × ℤ). y.0) (take k l)) (skipped from x xs e)
            ∙ r.shown
            ∙ sym (keep_skipped x (take n xs) e);
        last_at = (
          r.last_at.0,
          ap (λ l. last_of (take k l)) (skipped from x xs e)
              ∙ r.last_at.1
              ∙ ap (λ m. some (r.last_at.0, pred_ℤ m)) total,
        );
      }

  one-Cut :
      (from : ℕ) (x : E) (xs : List E) → is_match type_of agent_of q x ≡ true → Cut 1 from (x ∷ xs)
  one-Cut from x xs e = record {
    count = 1;
    some_count = omega arith;
    within = omega arith;
    shown =
        ap (λ l. map (λ (y : E × ℤ). y.0) (take 1 l)) (taken from x xs e) ∙ sym (keep_taken x [] e);
    last_at = (
      x,
      ap (λ l. last_of (take 1 l)) (taken from x xs e)
          ∙ ap (λ z. some (x, z)) (sym (pred_suc from)),
    );
  }

  more-Cut :
      (k from : ℕ) (x : E) (xs : List E)
      → is_match type_of agent_of q x ≡ true
      → Cut (suc k) (from + 1) xs
      → Cut (suc (suc k)) from (x ∷ xs)
  more-Cut k from x xs e r =
      let n = r.count in
      let within = r.within in
      let total : from + 1 + n ≡ from + suc n = omega arith in
      let rest = take (suc k) (matched type_of agent_of q (pos (from + 1)) xs) in
      record {
        count = suc n;
        some_count = omega arith;
        within = omega (arith, within);
        shown =
            ap (λ l. map (λ (y : E × ℤ). y.0) (take (suc (suc k)) l)) (taken from x xs e)
            ∙ ap (λ l. x ∷ l) r.shown
            ∙ sym (keep_taken x (take n xs) e);
        last_at = (
          r.last_at.0,
          ap (λ l. last_of (take (suc (suc k)) l)) (taken from x xs e)
              ∙ last_of-cons (x, pos from) (r.last_at.0, pred_ℤ (from + 1 + n)) rest r.last_at.1
              ∙ ap (λ m. some (r.last_at.0, pred_ℤ m)) total,
        );
      }

  pub cut :
      (k from : ℕ) (xs : List E)
      → 0 < k
      → k ≤ length (matched type_of agent_of q (pos from) xs)
      → Cut k from xs
  unfolding matched
  cut k from [] p h = absurd (omega (arith, p, h))
  cut zero from (x ∷ xs) p h = absurd (omega (arith, p))
  cut (suc k) from (x ∷ xs) p h = elim (Bool-cases (is_match type_of agent_of q x)) [
    | inr e ↦
        let size = ap length (skipped from x xs e) in
        skip-Cut (suc k) from x xs e (cut (suc k) (from + 1) xs p (omega (arith, h, size)))
    | inl e ↦
        let size = ap length (taken from x xs e) in
        cut_more k from x xs e (λ r. cut k (from + 1) xs r (omega (arith, h, size)))
  ]
    where
      cut_more :
          (k from : ℕ) (x : E) (xs : List E)
          → is_match type_of agent_of q x ≡ true
          → (0 < k → Cut k (from + 1) xs)
          → Cut (suc k) from (x ∷ xs)
      cut_more zero from x xs e r = one-Cut from x xs e
      cut_more (suc k) from x xs e r = more-Cut k from x xs e (r (omega arith))
