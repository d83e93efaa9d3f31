-- ===== src/FileStore/Reads.antt =====
-- A range read from a file is the range that the memory store reads from the events it holds.
use roj.Base.{
  ℕ, zero, suc, ◌+◌, ◌-◌, ◌≤◌, ◌<◌, ◌≢◌, min, ◌≡◌, refl, sym, ap, ◌∙◌, true, Option, none, some,
  List, [], ◌∷◌, ◌++◌, append_assoc, append-nil, map, if◌then◌else◌, length, length-drop,
  length-take, take, take-whole, drop, is_empty, arith, dec_lt,
}
use roj.Base.Int.{pos, negsuc, pred_ℤ}
use roj.Store.Contract.{end_of_bounds}
use roj.Store.Range.{LoadRangeResult, end_of, page}
use roj.FileStore.{Bytes, Text, newline, Codec, text_of, split_lines}
use roj.FileStore.Lines.{has_no_newline, split_lines-line}
use roj.FileStore.Contents.{Faithful}
use roj.FileStore.Tail.{init, take_last, trimmed, last_lines}
use roj.FileStore.Tail.Slices.{init-append, split_lines-one}
use roj.FileStore.Range.{needed_count, slice, sliced, last_ones, parse_each}

module _ {E : Type 0} (c : Codec E) (law : Faithful c) where
  split_lines-text_of :
      (es : List E) (torn : Text)
      → has_no_newline torn ≡ true
      → split_lines (text_of c es ++ torn) ≡ map c.stringify es ++ (torn ∷ [])
  unfolding text_of
  split_lines-text_of [] torn h = split_lines-one torn h
  split_lines-text_of (e ∷ es) torn h =
      let line = c.stringify e in
      ap split_lines (
        ap (λ t. t ++ torn) (append_assoc line (newline ∷ []) (text_of c es))
        ∙ append_assoc line (newline ∷ text_of c es) torn)
      ∙ split_lines-line line (text_of c es ++ torn) (law.one_line e)
      ∙ ap (λ l. line ∷ l) (split_lines-text_of es torn h)

  trimmed-stringify : (es : List E) → trimmed c (map c.stringify es) ≡ map c.stringify es
  trimmed-stringify [] = refl
  trimmed-stringify (e ∷ es) =
      rw (trimmed, law.not_blank e, law.no_margin e, trimmed-stringify es) refl

  pub parse_each-stringify : (es : List E) → parse_each c (map c.stringify es) ≡ some es
  unfolding parse_each
  parse_each-stringify [] = refl
  parse_each-stringify (e ∷ es) = rw (law.parse_stringify e, parse_each-stringify es) refl

  drop-stringify : (n : ℕ) (es : List E) → drop n (map c.stringify es) ≡ map c.stringify (drop n es)
  drop-stringify zero es = refl
  drop-stringify (suc n) [] = refl
  drop-stringify (suc n) (e ∷ es) = drop-stringify n es

  length-stringify : (es : List E) → length (map c.stringify es) ≡ length es
  length-stringify [] = refl
  length-stringify (e ∷ es) = ap suc (length-stringify es)

  -- The last lines of the file are the last events.
  pub last_lines-content_of :
      (file : Bytes) (count : ℕ) (es : List E) (torn : Bytes)
      → file ≡ text_of c es ++ torn
      → has_no_newline torn ≡ true
      → last_lines c file count ≡ map c.stringify (drop (length es - count) es)
  unfolding last_lines
  last_lines-content_of file count es torn e h =
      let lines = map c.stringify es in
      ap (λ f. take_last count (trimmed c (init (split_lines f)))) e
      ∙ ap (λ l. take_last count (trimmed c (init l))) (split_lines-text_of es torn h)
      ∙ ap (λ l. take_last count (trimmed c l)) (init-append lines [] torn ∙ append-nil lines)
      ∙ ap (take_last count) (trimmed-stringify es)
      ∙ ap (λ n. drop (n - count) lines) (length-stringify es)
      ∙ drop-stringify (length es - count) es

take-min : {E : Type 0} (k : ℕ) (xs : List E) → take k xs ≡ take (min k (length xs)) xs
take-min k xs = elim (dec_lt (length xs) k) [
  | yes r ↦
      let whole : min k (length xs) ≡ length xs = omega (arith, r) in
      take-whole k xs (omega (arith, r))
      ∙ sym (take-whole (length xs) xs (omega arith))
      ∙ ap (λ n. take n xs) (sym whole)
  | no r ↦ let same : k ≡ min k (length xs) = omega (arith, r) in ap (λ n. take n xs) same
]

abbrev range_of : {E : Type 0} → ℕ → ℕ → List E → LoadRangeResult E
range_of from end xs = record { events = xs; from_index = pos from; to_index = pred_ℤ end }

module _ {E : Type 0} where
  sliced-some :
      (from end n : ℕ) (xs : List E)
      → 0 < length xs
      → from + length xs ≡ end
      → sliced from n xs ≡ range_of from end xs
  sliced-some from end n [] h e = absurd (omega (arith, h))
  sliced-some from end n (x ∷ xs) h e = ap (λ k. range_of from k (x ∷ xs)) e

  last_ones-some :
      (from n : ℕ) (xs : List E)
      → 0 < length xs
      → n - length xs ≡ from
      → last_ones n xs ≡ range_of from n xs
  last_ones-some from n [] h e = absurd (omega (arith, h))
  last_ones-some from n (x ∷ xs) h e =
      ap (λ k. record { events = x ∷ xs; from_index = pos k; to_index = pred_ℤ n }) e

  paged : (from end : ℕ) (xs : List E) → LoadRangeResult E
  paged from end xs = record {
    events = xs;
    from_index = if is_empty xs then negsuc 0 else pos from;
    to_index = pred_ℤ end;
  }

  paged-some :
      (from end : ℕ) (xs : List E) → 0 < length xs → paged from end xs ≡ range_of from end xs
  unfolding paged
  paged-some from end [] h = absurd (omega (arith, h))
  paged-some from end (x ∷ xs) h = refl

module _ {E : Type 0} (es : List E) (from : ℕ) (inside : from < length es) where
  -- What the slice and the page hold.
  slice-page :
      (limit : Option ℕ)
      → limit ≢ some 0
      → slice limit from es ≡ take (end_of limit from (length es) - from) (drop from es)
  slice-page none h =
      let size = length-drop from es in
      sym (take-whole (length es - from) (drop from es) (omega (arith, size)))
  slice-page (some zero) h = absurd (h refl)
  slice-page (some (suc n)) h =
      let size = length-drop from es in
      let same : min (suc n) (length (drop from es)) ≡ min (from + suc n) (length es) - from =
        omega (arith, size, inside) in
      take-min (suc n) (drop from es) ∙ ap (λ k. take k (drop from es)) same

  length-page :
      (limit : Option ℕ)
      → limit ≢ some 0
      → from + length (take (end_of limit from (length es) - from) (drop from es))
        ≡ end_of limit from (length es)
  length-page limit h =
      let end = end_of limit from (length es) in
      let (low, high) = end_of_bounds limit from (length es) h inside in
      let size = length-drop from es in
      let taken = length-take (end - from) (drop from es) in omega (arith, low, high, size, taken)

  pub page-sliced :
      (limit : Option ℕ)
      → limit ≢ some 0
      → sliced from (length es) (slice limit from es) ≡ page es from (end_of limit from (length es))
  unfolding paged
  page-sliced limit h =
      let end = end_of limit from (length es) in
      let shown = take (end - from) (drop from es) in
      let total = length-page limit h in
      let (low, _) = end_of_bounds limit from (length es) h inside in
      let some_shown : 0 < length shown = omega (arith, total, low) in
      ap (sliced from (length es)) (slice-page limit h)
      ∙ sliced-some from end (length es) shown some_shown total
      ∙ sym (paged-some from end shown some_shown)

  -- When the range extends to the end, the page is what is left of the events.
  to_the_end :
      (limit : Option ℕ)
      → limit ≢ some 0
      → length es ≤ from + needed_count limit (length es - from)
      → end_of limit from (length es) ≡ length es
  to_the_end none h n = refl
  to_the_end (some limit) h n = omega (arith, n, inside)

  pub page-last_ones :
      (limit : Option ℕ)
      → limit ≢ some 0
      → length es ≤ from + needed_count limit (length es - from)
      → last_ones (length es) (drop from es) ≡ page es from (end_of limit from (length es))
  unfolding paged
  page-last_ones limit h n =
      let size = length-drop from es in
      let some_left : 0 < length (drop from es) = omega (arith, size, inside) in
      let whole = take-whole (length es - from) (drop from es) (omega (arith, size)) in
      last_ones-some from (length es) (drop from es) some_left (omega (arith, size, inside))
      ∙ sym (paged-some from (length es) (drop from es) some_left)
      ∙ ap (paged from (length es)) (sym whole)
      ∙ ap (page es from) (sym (to_the_end limit h n))
