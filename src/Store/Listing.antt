-- ===== src/Store/Listing.antt =====
-- `listSessionsWithMetadata` of packages/sdk/src/core/events/base-event-store.ts. The order of
-- equal keys is that of the store, as `Array.prototype.sort` is stable.
use roj.Base.{
  ℕ, zero, suc, ◌+◌, ◌≤◌, ◌≡◌, refl, ap, ◌∙◌, String, Bool, true, false, ◌&&◌, Option, none, some,
  List, [], ◌∷◌, ◌++◌, if◌then◌else◌, ◌=ₛ◌, leb, length, take, drop, keep, any, all, get_or, arith,
  take-append-drop, length-drop, Bool-cases, inl, inr,
}
use roj.Store.Metadata.{SessionMetadata, MetadataStatus, active, closed}
use roj.Store.Paging.{drop-drop}

pub data OrderBy : Type 0 where
  by_created_at by_last_activity_at : OrderBy

pub data Order : Type 0 where
  asc desc : Order

pub record ListSessionsOptions : Type 0 where
  pub status : Option MetadataStatus
  pub tags : Option (List String)
  pub limit : Option ℕ
  pub offset : Option ℕ
  pub order_by : Option OrderBy
  pub order : Option Order

pub record ListedSessions : Type 0 where
  pub sessions : List SessionMetadata
  pub total : ℕ

abbrev same_status : MetadataStatus → MetadataStatus → Bool
same_status active active = true
same_status closed closed = true
same_status MetadataStatus.errored MetadataStatus.errored = true
same_status _ _ = false

abbrev status_matches : Option MetadataStatus → SessionMetadata → Bool
status_matches none m = true
status_matches (some s) m = same_status m.status s

abbrev has_tag : Option (List String) → String → Bool
has_tag none tag = false
has_tag (some own) tag = any (λ t. t =ₛ tag) own

abbrev tags_match : Option (List String) → SessionMetadata → Bool
tags_match none m = true
tags_match (some tags) m = all (has_tag m.tags) tags

abbrev pub matches : ListSessionsOptions → SessionMetadata → Bool
matches o m = status_matches o.status m && tags_match o.tags m

abbrev key : OrderBy → SessionMetadata → ℕ
key by_created_at m = m.created_at
key by_last_activity_at m = m.last_activity_at

-- `a` does not come after `b`.
abbrev pub in_order : OrderBy → Order → SessionMetadata → SessionMetadata → Bool
in_order by asc a b = leb (key by a) (key by b)
in_order by desc a b = leb (key by b) (key by a)

unfoldable pub place :
    (SessionMetadata → SessionMetadata → Bool)
    → SessionMetadata
    → List SessionMetadata
    → List SessionMetadata
place before m [] = m ∷ []
place before m (x ∷ xs) =
    let rest = place before m xs in if before m x then m ∷ x ∷ xs else x ∷ rest

unfoldable pub sort_sessions :
    (SessionMetadata → SessionMetadata → Bool) → List SessionMetadata → List SessionMetadata
unfolding place
sort_sessions before [] = []
sort_sessions before (m ∷ ms) = place before m (sort_sessions before ms)

abbrev pub sorted_matches : ListSessionsOptions → List SessionMetadata → List SessionMetadata
sorted_matches o sessions =
    sort_sessions (in_order (get_or o.order_by by_created_at) (get_or o.order desc))
      (keep (matches o) sessions)

unfoldable pub list_sessions_with_metadata :
    ListSessionsOptions → List SessionMetadata → ListedSessions
unfolding sort_sessions
list_sessions_with_metadata o stored =
    let sessions = sorted_matches o stored in
    let offset = get_or o.offset 0 in
    record {
      sessions = take (get_or o.limit (length sessions)) (drop offset sessions);
      total = length (keep (matches o) stored);
    }

take_all {ℓ} : {A : Type ℓ} (n : ℕ) (xs : List A) → length xs ≤ n → take n xs ≡ xs
take_all zero [] h = refl
take_all zero (x ∷ xs) h = ground arith
take_all (suc n) [] h = refl
take_all (suc n) (x ∷ xs) h = ap (◌∷◌ x) (take_all n xs (omega arith))

abbrev pub with_page : Option ℕ → Option ℕ → ListSessionsOptions → ListSessionsOptions
with_page offset limit o = record o { offset = offset; limit = limit }

take_rest {ℓ} :
    {A : Type ℓ} (offset : ℕ) (xs : List A) → take (length xs) (drop offset xs) ≡ drop offset xs
take_rest offset xs =
    let shorter = length-drop offset xs in
    take_all (length xs) (drop offset xs) (omega (arith, shorter))

-- A page, followed by what is listed after it without a limit, is what is listed from the page's
-- start without a limit; and no page changes the total.
pub list_sessions-pages :
    (o : ListSessionsOptions) (offset limit : ℕ) (stored : List SessionMetadata)
    → ((list_sessions_with_metadata (with_page (some offset) (some limit) o) stored).sessions
          ++ (list_sessions_with_metadata
              (with_page (some (offset + limit)) none o)
              stored).sessions
        ≡ (list_sessions_with_metadata (with_page (some offset) none o) stored).sessions)
      × ((list_sessions_with_metadata (with_page (some offset) (some limit) o) stored).total
          ≡ (list_sessions_with_metadata (with_page none none o) stored).total)
unfolding list_sessions_with_metadata
list_sessions-pages o offset limit stored =
    let xs = sorted_matches o stored in
    (
      rw (take_rest offset xs, take_rest (offset + limit) xs, ← drop-drop limit offset xs)
          (take-append-drop limit (drop offset xs)),
      refl,
    )

-- Every session is in order with the next one.
abbrev pub Ordered : (SessionMetadata → SessionMetadata → Bool) → List SessionMetadata → Type 0
Ordered before [] = Unit {0}
Ordered before (x ∷ []) = Unit {0}
Ordered before (x ∷ y ∷ ys) = (before x y ≡ true) × Ordered before (y ∷ ys)

in_order-total :
    (by : OrderBy) (order : Order) (a b : SessionMetadata)
    → in_order by order a b ≡ false
    → in_order by order b a ≡ true
in_order-total by asc a b h = ground arith
in_order-total by desc a b h = ground arith

module _ (before : SessionMetadata → SessionMetadata → Bool)
    (total : (a b : SessionMetadata) → before a b ≡ false → before b a ≡ true) where
  place-Ordered :
      (m : SessionMetadata) (xs : List SessionMetadata)
      → Ordered before xs
      → Ordered before (place before m xs)
  unfolding place
  place-Ordered m [] h = tt
  place-Ordered m (x ∷ []) h = elim (Bool-cases (before m x)) [
    | inl b ↦ rw b (b, tt)
    | inr b ↦ rw b (total m x b, tt)
  ]
  place-Ordered m (x ∷ y ∷ ys) h =
      let later = place-Ordered m (y ∷ ys) h.1 in
      elim (Bool-cases (before m x)) [
        | inl b ↦ rw b (b, h)
        | inr b ↦ elim (Bool-cases (before m y)) [
          | inl c ↦ rw (b, c) (total m x b, (c, h.1))
          | inr c ↦ rw (b, c) (h.0, rw c at later)
        ]
      ]

  sort_sessions-Ordered : (xs : List SessionMetadata) → Ordered before (sort_sessions before xs)
  unfolding sort_sessions
  sort_sessions-Ordered [] = tt
  sort_sessions-Ordered (x ∷ xs) =
      place-Ordered x (sort_sessions before xs) (sort_sessions-Ordered xs)

module _ (before : SessionMetadata → SessionMetadata → Bool) where
  length-place :
      (m : SessionMetadata) (xs : List SessionMetadata)
      → length (place before m xs) ≡ suc (length xs)
  unfolding place
  length-place m [] = refl
  length-place m (x ∷ xs) = ground (arith, length-place m xs)

  length-sort_sessions : (xs : List SessionMetadata) → length (sort_sessions before xs) ≡ length xs
  unfolding sort_sessions
  length-sort_sessions [] = refl
  length-sort_sessions (x ∷ xs) =
      length-place x (sort_sessions before xs) ∙ ap suc (length-sort_sessions xs)

  all-place :
      (p : SessionMetadata → Bool) (m : SessionMetadata) (xs : List SessionMetadata)
      → all p (place before m xs) ≡ (p m && all p xs)
  unfolding place
  all-place p m [] = refl
  all-place p m (x ∷ xs) = ground (arith, all-place p m xs)

  all-sort_sessions :
      (p : SessionMetadata → Bool) (xs : List SessionMetadata)
      → all p (sort_sessions before xs) ≡ all p xs
  unfolding sort_sessions
  all-sort_sessions p [] = refl
  all-sort_sessions p (x ∷ xs) =
      all-place p x (sort_sessions before xs) ∙ ap (λ b. p x && b) (all-sort_sessions p xs)

all-keep : (p : SessionMetadata → Bool) (xs : List SessionMetadata) → all p (keep p xs) ≡ true
all-keep p [] = refl
all-keep p (x ∷ xs) = ground (arith, all-keep p xs)

-- Without paging, the list is in the order that was asked for, every session in it passes the
-- filters, and there are as many as the total says.
pub list_sessions-Ordered :
    (o : ListSessionsOptions) (stored : List SessionMetadata)
    → let listed = list_sessions_with_metadata (with_page none none o) stored in
      Ordered (in_order (get_or o.order_by by_created_at) (get_or o.order desc)) listed.sessions
      × (all (matches o) listed.sessions ≡ true)
      × (length listed.sessions ≡ listed.total)
unfolding list_sessions_with_metadata
list_sessions-Ordered o stored =
    let before = in_order (get_or o.order_by by_created_at) (get_or o.order desc) in
    let kept = keep (matches o) stored in
    let whole =
      take_all (length (sort_sessions before kept)) (sort_sessions before kept) (omega arith) in
    rw whole (
      sort_sessions-Ordered before
          (in_order-total (get_or o.order_by by_created_at) (get_or o.order desc)) kept,
      all-sort_sessions before (matches o) kept ∙ all-keep (matches o) stored,
      length-sort_sessions before kept,
    )
