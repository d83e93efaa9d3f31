-- ===== src/FileStore/Tail/Reference.antt =====
-- Reading the last lines backwards in chunks gives the last lines of the whole file.
use roj.Base.{
  ℕ, zero, suc, ◌+◌, ◌-◌, ◌≤◌, ◌<◌, min, ◌≡◌, refl, sym, subst, ap, ◌∙◌, ◌⊎◌, inl, inr, Bool, true,
  false, not, ◌&&◌, List, [], ◌∷◌, ◌++◌, append_assoc, append-nil, if◌then◌else◌, ltb, leb, length,
  take, drop, is_empty, arith, if_both, dec_lt,
}
use roj.FileStore.{Bytes, Text, Codec, split_lines}
use roj.FileStore.Lines.{has_no_newline, take-length}
use roj.Store.Paging.{drop_all}
use roj.FileStore.Tail.{
  chunk_size, TailRead, init, take_last, scan_parts, split_buffer, read_chunk, read_chunks, finish,
  at_end, read_last_lines, trimmed, last_lines,
}
use roj.FileStore.Tail.Slices.{
  take_last-short, take_last-append, length-take_last, init-append, split_lines-cons,
  split_lines-append, split_lines-one, take-more, IsAscii, IsAscii-take, IsAscii-drop,
  trimmed-append, add_from_end-take_last,
}

take_last-take_last :
    (n : ℕ) (xs ys : List Text) → take_last n (xs ++ take_last n ys) ≡ take_last n (xs ++ ys)
take_last-take_last n xs ys = elim (dec_lt (length ys) n) [
  | yes r ↦ ap (λ l. take_last n (xs ++ l)) (take_last-short n ys (omega (arith, r)))
  | no r ↦
      let size = length-take_last n ys in
      let whole : length (take_last n ys) ≡ n = omega (arith, size, r) in
      take_last-append n xs (take_last n ys) (omega (arith, whole))
      ∙ take_last-short n (take_last n ys) (omega (arith, whole))
      ∙ sym (take_last-append n xs ys (omega (arith, r)))
]

module _ {E : Type 0} (c : Codec E) (file : Bytes) (count : ℕ) where
  -- The lines that are still to be found, before those that were found.
  abbrev left_of : Bool → List Text → List Text
  left_of dropped parts = trimmed c (if dropped then parts else init parts)

  abbrev goal : TailRead → List Text
  goal s =
      take_last count
        (left_of s.tail_dropped (split_lines (take s.position file ++ s.buffer)) ++ s.lines)

  record Reads (s : TailRead) : Type 0 where
    pub one_line : has_no_newline s.buffer ≡ true
    pub few : length s.lines ≤ count
    pub inside : s.position ≤ length file

  ended :
      (dropped blank room : Bool) (t : Text) (lines : List Text)
      → (room ≡ false → count ≤ length lines)
      → take_last count (if dropped && not blank && room then t ∷ lines else lines)
        ≡ take_last count ((if dropped then if blank then [] else t ∷ [] else []) ++ lines)
  ended false blank room t lines h = refl
  ended true true room t lines h = refl
  ended true false true t lines h = refl
  ended true false false t lines h = sym (take_last-append count (t ∷ []) lines (h refl))

  one_left :
      (dropped : Bool) (buffer : Text)
      → has_no_newline buffer ≡ true
      → left_of dropped (split_lines buffer)
        ≡ (if dropped then if is_empty (c.trim buffer) then [] else c.trim buffer ∷ [] else [])
  one_left true buffer h = rw (split_lines-one buffer h) refl
  one_left false buffer h = rw (split_lines-one buffer h) refl

  no_room :
      (dropped blank room : Bool) (t : Text) (lines : List Text)
      → room ≡ false
      → (if dropped && not blank && room then t ∷ lines else lines) ≡ lines
  no_room dropped blank room t lines h = ground (arith, h)

  -- When the loop ends, what is left is the first line of the file or is not wanted.
  finish-goal :
      (s : TailRead)
      → Reads s
      → (s.position ≡ 0) ⊎ (count ≤ length s.lines)
      → finish c count s ≡ goal s
  finish-goal s r (inl e) =
      let blank = is_empty (c.trim s.buffer) in
      ended s.tail_dropped blank (ltb (length s.lines) count) (c.trim s.buffer) s.lines
        (λ f. ground (arith, f))
      ∙ ap (λ l. take_last count (l ++ s.lines)) (sym (one_left s.tail_dropped s.buffer r.one_line))
      ∙ ap
          (λ n.
            take_last count
              (left_of s.tail_dropped (split_lines (take n file ++ s.buffer)) ++ s.lines))
          (sym e)
  finish-goal s r (inr h) =
      let full : ltb (length s.lines) count ≡ false = ground (arith, h) in
      ap (take_last count) (
        no_room s.tail_dropped (is_empty (c.trim s.buffer)) (ltb (length s.lines) count)
          (c.trim s.buffer) s.lines full)
      ∙ sym (
          take_last-append count
            (left_of s.tail_dropped (split_lines (take s.position file ++ s.buffer))) s.lines h)

  dropped_parts :
      (dropped : Bool) (a ps : List Text) (p : Text)
      → (if dropped then a ++ (p ∷ ps) else init (a ++ (p ∷ ps)))
        ≡ a ++ (if dropped then p ∷ ps else init (p ∷ ps))
  dropped_parts true a ps p = refl
  dropped_parts false a ps p = init-append a ps p

  -- What one turn makes of its parts.
  record Scanned (s : TailRead) (position : ℕ) (s' : TailRead) : Type 0 where
    pub reads : Reads s'
    pub at_position : s'.position ≡ position
    pub same_goal : goal s' ≡ goal s

  scan_parts-Scanned :
      (s : TailRead) (first : Text) (rest : List Text) (position : ℕ)
      → Reads s
      → position ≤ length file
      → has_no_newline first ≡ true
      → split_lines (take s.position file ++ s.buffer)
        ≡ split_lines (take position file ++ first) ++ rest
      → Scanned s position (scan_parts c count (record s { position = position }) first rest)
  scan_parts-Scanned s first [] position r p n e = record {
    reads = record { one_line = n; few = r.few; inside = p };
    at_position = refl;
    same_goal =
        ap (λ parts. take_last count (left_of s.tail_dropped parts ++ s.lines))
          (sym (e ∙ append-nil (split_lines (take position file ++ first))));
  }
  scan_parts-Scanned s first (q ∷ qs) position r p n e =
      let ahead = split_lines (take position file ++ first) in
      let parts = if s.tail_dropped then q ∷ qs else init (q ∷ qs) in
      let found = add_from_end-take_last c count parts s.lines r.few in
      let size = ap length found ∙ length-take_last count (trimmed c parts ++ s.lines) in
      record {
        reads = record { one_line = n; few = omega (arith, size); inside = p };
        at_position = refl;
        same_goal =
            ap (λ l. take_last count (trimmed c ahead ++ l)) found
            ∙ take_last-take_last count (trimmed c ahead) (trimmed c parts ++ s.lines)
            ∙ ap (take_last count) (
                sym (append_assoc (trimmed c ahead) (trimmed c parts) s.lines)
                ∙ ap (λ l. l ++ s.lines)
                    (sym (trimmed-append c ahead parts)
                      ∙ ap (trimmed c) (sym (dropped_parts s.tail_dropped ahead qs q))
                      ∙ ap (left_of s.tail_dropped) (sym e)));
      }

  module _ (ascii : (b : Bytes) → IsAscii b → c.decode b ≡ b) (h : IsAscii file) where
    read_chunk-Scanned :
        (s : TailRead)
        → Reads s
        → Scanned s (s.position - min chunk_size s.position) (read_chunk c file count s)
    unfolding read_chunk
    read_chunk-Scanned s r =
        let size = min chunk_size s.position in
        let position = s.position - size in
        let slice = take size (drop position file) in
        let plain =
          ascii slice (IsAscii-take size (drop position file) (IsAscii-drop position file h)) in
        let (first, rest, f, n) = split_lines-cons (slice ++ s.buffer) in
        let inside = r.inside in
        let whole : s.position ≡ position + size = omega arith in
        let text : take s.position file ++ s.buffer ≡ take position file ++ (slice ++ s.buffer) =
          ap (λ k. take k file ++ s.buffer) whole
          ∙ ap (λ b. b ++ s.buffer) (take-more position size file)
          ∙ append_assoc (take position file) slice s.buffer in
        let parts =
          ap split_lines text
          ∙ split_lines-append (take position file) (slice ++ s.buffer) first rest n f in
        subst (λ l. Scanned s position (split_buffer c count (record s { position = position }) l))
          (sym (ap (λ b. split_lines (b ++ s.buffer)) plain ∙ f))
          (scan_parts-Scanned s first rest position r (omega (arith, inside)) n parts)

    chunks-goal :
        (fuel : ℕ) (s : TailRead)
        → Reads s
        → s.position ≤ fuel
        → finish c count (read_chunks c fuel file count s) ≡ goal s
    unfolding read_chunks
    chunks-goal zero s r p = finish-goal s r (inl (omega (arith, p)))
    chunks-goal (suc fuel) s r p =
        let one = read_chunk-Scanned s r in
        let position = one.at_position in
        if_both (λ x. finish c count x ≡ goal s) (ltb 0 s.position && ltb (length s.lines) count) _
          _
          (λ e.
            let more : 0 < s.position = ground (arith, e) in
            chunks-goal fuel (read_chunk c file count s) one.reads
              (omega (arith, position, p, more))
            ∙ one.same_goal)
          (λ e. finish-goal s r (stopped s e))
      where
        stopped :
            (s : TailRead)
            → ltb 0 s.position && ltb (length s.lines) count ≡ false
            → (s.position ≡ 0) ⊎ (count ≤ length s.lines)
        stopped s e = elim (dec_lt 0 s.position) [
          | no z ↦ inl (omega (arith, z))
          | yes z ↦ inr (ground (arith, e, z))
        ]

drop_nothing : (n : ℕ) → drop {A = Text} n [] ≡ []
drop_nothing zero = refl
drop_nothing (suc n) = refl

-- Reading backwards in chunks returns the last `count` of the complete lines of the whole file that
-- are not blank, trimmed and in order; a line that was not completed is none of them. The loop ends
-- within as many turns as the file has bytes. The file's bytes are ASCII, which are decoded alike
-- wherever a chunk ends.
pub read_last_lines-last_lines :
    {E : Type 0} (c : Codec E)
    → ((b : Bytes) → IsAscii b → c.decode b ≡ b)
    → (file : Bytes) (count : ℕ) → IsAscii file
    → read_last_lines c file count ≡ last_lines c file count
unfolding read_last_lines last_lines
read_last_lines-last_lines c ascii file zero h =
    let all = trimmed c (init (split_lines file)) in
    sym (drop_all (length all - 0) all (omega arith))
read_last_lines-last_lines c ascii [] (suc n) h =
    if_both (λ x. x ≡ last_lines c [] (suc n)) (leb (suc n) 0) _ _ (λ e. absurd (ground (arith, e)))
      (λ e. sym (drop_nothing (0 - suc n)))
read_last_lines-last_lines c ascii (x ∷ xs) (suc n) h =
    let file = x ∷ xs in
    let whole : take (length file) file ++ [] ≡ file =
      append-nil (take (length file) file)
      ∙ ap (take (length file)) (sym (append-nil file))
      ∙ take-length file [] in
    let left = left_of c file (suc n) false (split_lines (take (length file) file ++ [])) in
    if_both (λ x. x ≡ last_lines c file (suc n)) (leb (suc n) 0) _ _
      (λ e. absurd (ground (arith, e)))
      (λ e.
        chunks-goal c file (suc n) ascii h (length file) (at_end c file)
          (record { one_line = refl; few = omega arith; inside = omega arith }) (omega arith)
        ∙ ap (take_last (suc n))
            (append-nil left ∙ ap (λ t. trimmed c (init (split_lines t))) whole))
