-- ===== src/Session/Sequences.antt =====
-- `reserveSequence` of packages/sdk/src/core/sessions/session.ts, behind the ids of agents and of
-- mailbox messages. A request carries the number that its seed function would compute; whether the
-- runtime is closed at that moment is part of it.
use roj.Base.{
  ℕ, zero, suc, ◌+◌, ◌≡◌, refl, sym, ap, ◌∙◌, String, Bool, not, ◌&&◌, List, [], ◌∷◌, if◌then◌else◌,
  ◌=ₛ◌, Dict, lookup, insert, lookup-insert, get_or, Result, ok, err, Bool-cases, inl, inr, eq_iff,
}

pub record Request : Type 0 where
  pub closed : Bool
  pub name : String
  pub seed : ℕ

pub data ReserveError : Type 0 where
  runtime_closed : (name : String) → ReserveError

unfoldable pub reserve_sequence : Request → Dict ℕ → Result ReserveError (ℕ × Dict ℕ)
reserve_sequence r sequences =
    let sequence = get_or (lookup r.name sequences) r.seed in
    if r.closed
    then err (runtime_closed r.name)
    else ok (sequence, insert r.name (sequence + 1) sequences)

-- The numbers that a run of requests is given, each with its name; a refused one gets none.
unfoldable pub reserve_all : List Request → Dict ℕ → List (String × ℕ)
reserve_all [] sequences = []
reserve_all (r ∷ rs) sequences = elim (reserve_sequence r sequences) [
  | ok given ↦ (r.name, given.0) ∷ reserve_all rs given.1
  | err e ↦ reserve_all rs sequences
]

abbrev pub numbers_of : String → List (String × ℕ) → List ℕ
numbers_of name [] = []
numbers_of name ((n, k) ∷ given) =
    let rest = numbers_of name given in if n =ₛ name then k ∷ rest else rest

abbrev asks : String → Request → Bool
asks name r = not r.closed && r.name =ₛ name

-- How many requests for the name are made while the runtime is open.
abbrev pub granted : String → List Request → ℕ
granted name [] = 0
granted name (r ∷ rs) = let rest = granted name rs in if asks name r then suc rest else rest

-- The seed of the first of them.
abbrev pub first_seed : String → List Request → ℕ
first_seed name [] = 0
first_seed name (r ∷ rs) = let rest = first_seed name rs in if asks name r then r.seed else rest

abbrev pub count_up : ℕ → ℕ → List ℕ
count_up from zero = []
count_up from (suc n) = from ∷ count_up (from + 1) n

granted_step :
    (name : String) (r : Request) (rs : List Request) (sequences : Dict ℕ) (k : ℕ)
    → get_or (lookup r.name sequences) r.seed ≡ k
    → numbers_of name (reserve_all rs (insert r.name (k + 1) sequences))
      ≡ count_up
          (get_or (lookup name (insert r.name (k + 1) sequences)) (first_seed name rs))
          (granted name rs)
    → numbers_of name ((r.name, k) ∷ reserve_all rs (insert r.name (k + 1) sequences))
      ≡ count_up
          (get_or (lookup name sequences) (if r.name =ₛ name then r.seed else first_seed name rs))
          (if r.name =ₛ name then suc (granted name rs) else granted name rs)
granted_step name r rs sequences k q ih = elim (Bool-cases (r.name =ₛ name)) [
  | inl e ↦
      let same : r.name ≡ name = (eq_iff r.name name).0 e in
      let start : get_or (lookup name sequences) r.seed ≡ k =
        ap (λ n. get_or (lookup n sequences) r.seed) (sym same) ∙ q in
      rw (e, start) (ap (◌∷◌ k) (ih ∙ rw (lookup-insert r.name name (k + 1) sequences, e)))
  | inr e ↦ rw e (ih ∙ rw (lookup-insert r.name name (k + 1) sequences, e))
]

-- Whatever requests for other names come between them and whatever their own seeds say, the
-- requests for a name that find the runtime open are given consecutive numbers, from the one that
-- is stored for the name, or else from the seed of the first.
pub numbers_of-reserve_all :
    (name : String) (rs : List Request) (sequences : Dict ℕ)
    → numbers_of name (reserve_all rs sequences)
      ≡ count_up (get_or (lookup name sequences) (first_seed name rs)) (granted name rs)
unfolding reserve_all reserve_sequence
numbers_of-reserve_all name [] sequences = refl
numbers_of-reserve_all name (r ∷ rs) sequences = elim (Bool-cases r.closed) [
  | inl c ↦ rw c (numbers_of-reserve_all name rs sequences)
  | inr c ↦
      let k = get_or (lookup r.name sequences) r.seed in
      let next = insert r.name (k + 1) sequences in
      rw c (granted_step name r rs sequences k refl (numbers_of-reserve_all name rs next))
]
