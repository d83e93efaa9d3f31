-- ===== src/FileStore/Lines.antt =====
-- Lines and their ends: where the last complete line ends, and what a text of lines splits into.
use roj.Base.{
  ℕ, zero, suc, ◌+◌, ◌≤◌, ◌≡◌, refl, ap, ◌∙◌, Bool, true, false, not, [], ◌∷◌, ◌++◌, ◌==◌, length,
  take, drop, all, arith,
}
use roj.FileStore.{Bytes, Text, newline, split_lines, complete_length}

abbrev pub has_no_newline : Text → Bool
has_no_newline t = all (λ x. not (x == newline)) t

pub complete_length-none : (torn : Bytes) → has_no_newline torn ≡ true → complete_length torn ≡ 0
unfolding complete_length
complete_length-none [] h = refl
complete_length-none (x ∷ xs) h =
    let rest = complete_length-none xs (ground (arith, h)) in ground (arith, rest, h)

-- A complete line in front.
pub complete_length-line :
    (line rest : Bytes)
    → complete_length (line ++ (newline ∷ rest)) ≡ suc (length line) + complete_length rest
unfolding complete_length
complete_length-line [] rest = ground arith
complete_length-line (x ∷ xs) rest = let ih = complete_length-line xs rest in ground (arith, ih)

pub split_lines-line :
    (line rest : Text)
    → has_no_newline line ≡ true
    → split_lines (line ++ (newline ∷ rest)) ≡ line ∷ split_lines rest
unfolding split_lines
split_lines-line [] rest h = refl
split_lines-line (x ∷ xs) rest h =
    let ih = split_lines-line xs rest (ground (arith, h)) in
    let here : (x == newline) ≡ false = ground (arith, h) in rw (ih, here)

pub take-length : (xs ys : Bytes) → take (length xs) (xs ++ ys) ≡ xs
take-length [] ys = refl
take-length (x ∷ xs) ys = ap (λ l. x ∷ l) (take-length xs ys)

pub drop-length : (xs ys : Bytes) → drop (length xs) (xs ++ ys) ≡ ys
drop-length [] ys = refl
drop-length (x ∷ xs) ys = drop-length xs ys

pub has_no_newline-take :
    (n : ℕ) (xs : Bytes) → has_no_newline xs ≡ true → has_no_newline (take n xs) ≡ true
has_no_newline-take zero xs h = refl
has_no_newline-take (suc n) [] h = refl
has_no_newline-take (suc n) (x ∷ xs) h =
    let ih = has_no_newline-take n xs (ground (arith, h)) in ground (arith, ih, h)

pub take-within : (n : ℕ) (xs ys : Bytes) → n ≤ length xs → take n (xs ++ ys) ≡ take n xs
take-within zero xs ys h = refl
take-within (suc n) [] ys h = absurd (omega (arith, h))
take-within (suc n) (x ∷ xs) ys h = ap (λ l. x ∷ l) (take-within n xs ys (omega (arith, h)))

pub take-beyond : (n : ℕ) (xs ys : Bytes) → take (length xs + n) (xs ++ ys) ≡ xs ++ take n ys
take-beyond n [] ys = ap (λ k. take k ys) (omega arith)
take-beyond n (x ∷ xs) ys =
    let more : suc (length xs) + n ≡ suc (length xs + n) = omega arith in
    ap (λ k. take k (x ∷ (xs ++ ys))) more ∙ ap (λ l. x ∷ l) (take-beyond n xs ys)
