-- ===== src/Store/Paging.antt =====
-- Polling `loadRange` of packages/sdk/src/core/events/memory.ts with the returned `toIndex`.
use roj.Base.{
  ℕ, zero, suc, ◌+◌, ◌-◌, ◌≤◌, ◌<◌, min, ◌≡◌, refl, sym, ap, ◌∙◌, false, some, List, [], ◌∷◌, ◌++◌,
  if◌then◌else◌, arith, length, take, drop, is_empty, take-append-drop, dec_lt,
}
use roj.Base.Int.{ℤ, pred_ℤ, next_ℕ, next_ℕ-pred_ℤ}
use roj.Store.Range.{load_range, page}

-- A reader that asks for `limit` events at a time, each time after the last index it was given,
-- until a page is empty.
unfoldable pub poll : {A : Type 0} → ℕ → ℕ → ℤ → List A → List A
unfolding load_range
poll zero limit since all = []
poll (suc fuel) limit since all =
    let r = load_range (record { since = some since; limit = some limit }) all in
    let rest = poll fuel limit r.to_index all in if is_empty r.events then [] else r.events ++ rest

module _ {A : Type 0} where
  pub drop_all : (n : ℕ) (xs : List A) → length xs ≤ n → drop n xs ≡ []
  drop_all zero [] h = refl
  drop_all zero (x ∷ xs) h = ground arith
  drop_all (suc n) [] h = refl
  drop_all (suc n) (x ∷ xs) h = drop_all n xs (omega arith)

  drop_nil : (n : ℕ) → drop {A = A} n [] ≡ []
  drop_nil zero = refl
  drop_nil (suc n) = refl

  pub drop-drop : (k f : ℕ) (xs : List A) → drop k (drop f xs) ≡ drop (f + k) xs
  drop-drop k zero xs = ap (λ n. drop n xs) (omega arith)
  drop-drop k (suc f) [] = drop_nil k ∙ sym (drop_nil (suc f + k))
  drop-drop k (suc f) (x ∷ xs) =
      let same : suc (f + k) ≡ suc f + k = omega arith in
      drop-drop k f xs ∙ ap (λ n. drop n (x ∷ xs)) same

  take_some :
      (k f : ℕ) (xs : List A) → 1 ≤ k → f < length xs → is_empty (take k (drop f xs)) ≡ false
  take_some zero f xs p q = ground arith
  take_some (suc k) f [] p q = ground arith
  take_some (suc k) zero (x ∷ xs) p q = refl
  take_some (suc k) (suc f) (x ∷ xs) p q = take_some (suc k) f xs p (omega arith)

  load_range-end :
      (limit : ℕ) (since : ℤ) (all : List A)
      → length all ≤ next_ℕ since
      → (load_range (record { since = some since; limit = some limit }) all).events ≡ []
  unfolding load_range
  load_range-end limit since all p = ground arith

  load_range-page :
      (limit : ℕ) (since : ℤ) (all : List A)
      → next_ℕ since < length all
      → load_range (record { since = some since; limit = some limit }) all
        ≡ page all (next_ℕ since) (min (next_ℕ since + limit) (length all))
  unfolding load_range
  load_range-page limit since all p = ground arith

  -- Polling with a positive limit, and fuel for as many pages as there are events after `since`,
  -- returns each of those events once, in order.
  pub poll_lem :
      (fuel limit : ℕ) (since : ℤ) (all : List A)
      → 1 ≤ limit
      → length all ≤ fuel + next_ℕ since
      → poll fuel limit since all ≡ drop (next_ℕ since) all
  unfolding poll load_range
  poll_lem zero limit since all p q = sym (drop_all (next_ℕ since) all (omega arith))
  poll_lem (suc fuel) limit since all p q =
      let from = next_ℕ since in
      let end = min (from + limit) (length all) in
      elim (dec_lt from (length all)) [
        | no r ↦
            let over : length all ≤ from = omega arith in
            rw (load_range-end limit since all over, drop_all from all over)
        | yes r ↦
            let count = end - from in
            let positive : 1 ≤ count = omega arith in
            let enough : length all ≤ fuel + end = omega arith in
            let same : from + count ≡ end = omega arith in
            let more : length all ≤ fuel + next_ℕ (pred_ℤ end) = rw (next_ℕ-pred_ℤ end) enough in
            rw (
              load_range-page limit since all r,
              take_some count from all positive r,
              poll_lem fuel limit (pred_ℤ end) all p more,
              next_ℕ-pred_ℤ end,
              ← ap (λ n. drop n all) same,
              ← drop-drop count from all,
              take-append-drop count (drop from all),
            )
      ]
