-- ===== src/FileStore/Refines.antt =====
-- The range that a file store reads is the one that the memory store reads.
use roj.Base.{
  ℕ, ◌+◌, ◌-◌, ◌*◌, ◌≤◌, ◌<◌, ◌≢◌, ◌≡◌, refl, sym, subst, ap, ◌∙◌, true, ◌||◌, Option, none, some,
  List, [], ◌∷◌, ◌++◌, map, ltb, leb, length, drop, get_or, arith, if_both, Result, ok,
}
use roj.Base.Int.{negsuc, next_ℕ, pred_ℤ}
use roj.Store.Range.{LoadRangeOptions, LoadRangeResult, load_range, end_of, page}
use roj.FileStore.{Bytes, Codec, FileLog, LogError, text_of, content_of}
use roj.FileStore.Lines.{has_no_newline}
use roj.FileStore.Contents.{Faithful, read_events-content_of, nothing_written}
use roj.FileStore.Append.{Holds}
use roj.FileStore.Tail.Slices.{IsAscii}
use roj.FileStore.Tail.Reference.{read_last_lines-last_lines}
use roj.FileStore.Range.{needed_count, parse_each, from_all, parsed, from_tail, read_range}
use roj.FileStore.Reads.{last_lines-content_of, parse_each-stringify, page-sliced, page-last_ones}

IsAscii-front : (xs ys : Bytes) → IsAscii (xs ++ ys) → IsAscii xs
IsAscii-front [] ys h = tt
IsAscii-front (x ∷ xs) ys h = (h.0, IsAscii-front xs ys h.1)

needed_rest :
    (limit : Option ℕ) (total from : ℕ)
    → from < total
    → total ≤ from + needed_count limit (total - from)
    → total - needed_count limit (total - from) ≡ from
needed_rest none total from h n = omega (arith, h)
needed_rest (some limit) total from h n = omega (arith, h, n)

module _ {E : Type 0} where
  load_range-end :
      (o : LoadRangeOptions) (es : List E)
      → length es ≤ next_ℕ (get_or o.since (negsuc 0))
      → record { events = []; from_index = negsuc 0; to_index = pred_ℤ (length es) }
        ≡ load_range o es
  unfolding load_range
  load_range-end o es i =
      let from = next_ℕ (get_or o.since (negsuc 0)) in
      if_both
        (λ (x : LoadRangeResult E).
          record { events = []; from_index = negsuc 0; to_index = pred_ℤ (length es) } ≡ x)
        (leb (length es) from) _ _ (λ e. refl) (λ e. absurd (ground (arith, e, i)))

  load_range-page :
      (o : LoadRangeOptions) (es : List E)
      → next_ℕ (get_or o.since (negsuc 0)) < length es
      → page es
          (next_ℕ (get_or o.since (negsuc 0)))
          (end_of o.limit (next_ℕ (get_or o.since (negsuc 0))) (length es))
        ≡ load_range o es
  unfolding load_range
  load_range-page o es i =
      let from = next_ℕ (get_or o.since (negsuc 0)) in
      if_both (λ x. page es from (end_of o.limit from (length es)) ≡ x) (leb (length es) from) _ _
        (λ e. absurd (ground (arith, e, i))) (λ e. refl)

module _ {E : Type 0} (c : Codec E) (law : Faithful c)
    (ascii : (b : Bytes) → IsAscii b → c.decode b ≡ b) where
  -- The file's text is its bytes.
  text_of-file :
      (es : List E) (torn : Bytes)
      → IsAscii (content_of c es ++ torn)
      → content_of c es ++ torn ≡ text_of c es ++ torn
  text_of-file es torn h =
      ap (λ t. t ++ torn)
        (sym (ascii (content_of c es) (IsAscii-front (content_of c es) torn h))
          ∙ law.decode_encode es)

  from_tail-page :
      (file : Option Bytes) (torn : Bytes) (es : List E) (limit : Option ℕ) (from : ℕ)
      → get_or file [] ≡ content_of c es ++ torn
      → has_no_newline torn ≡ true
      → IsAscii (get_or file [])
      → limit ≢ some 0
      → from < length es
      → length es ≤ from + needed_count limit (length es - from)
      → from_tail c (needed_count limit (length es - from)) (length es) file
        ≡ ok (page es from (end_of limit from (length es)))
  from_tail-page none torn es limit from e w a h i n =
      let gone = ap length (nothing_written c law es torn e) in absurd (omega (arith, gone, i))
  from_tail-page (some file) torn es limit from e w a h i n =
      let needed = needed_count limit (length es - from) in
      let text = e ∙ text_of-file es torn (subst IsAscii e a) in
      let lines =
        read_last_lines-last_lines c ascii file needed a
        ∙ last_lines-content_of c law file needed es torn text w
        ∙ ap (λ k. map c.stringify (drop k es)) (needed_rest limit (length es) from i n) in
      ap (λ l. parsed c (length es) (parse_each c l)) lines
      ∙ ap (parsed c (length es)) (parse_each-stringify c law (drop from es))
      ∙ ap ok (page-last_ones es from i limit h n)

-- A range read from the file of a store is the range that the memory store reads from the events
-- that the log holds: the same events, the same first index and the same cursor, whichever way the
-- file is read. The metadata counts the events, the file is there to be read and is ASCII, and the
-- limit, if there is one, is not 0.
pub read_range-load_range :
    {E : Type 0} (c : Codec E)
    → Faithful c
    → ((b : Bytes) → IsAscii b → c.decode b ≡ b)
    → (o : LoadRangeOptions) (log : FileLog) (es : List E) → Holds c log es
    → IsAscii (get_or log.bytes [])
    → o.limit ≢ some 0
    → read_range c true (length es) o log ≡ ok (load_range o es)
unfolding read_range
read_range-load_range {E} c law ascii o log es holds a h =
    let from = next_ℕ (get_or o.since (negsuc 0)) in
    let needed = needed_count o.limit (length es - from) in
    let P = λ (x : Result LogError (LoadRangeResult E)). x ≡ ok (load_range o es) in
    if_both P (leb (length es) from) _ _ (λ e. ap ok (load_range-end o es (ground (arith, e))))
      (λ e.
        let inside : from < length es = ground (arith, e) in
        if_both P (ltb (length es) (needed * 2) || ltb (from + needed) (length es)) _ _
          (λ d.
            ap (from_all c o.limit from (length es))
              (read_events-content_of c law log es holds.torn holds.incomplete holds.bytes)
            ∙ ap ok (page-sliced es from inside o.limit h ∙ load_range-page o es inside))
          (λ d.
            from_tail-page c law ascii log.bytes holds.torn es o.limit from holds.bytes
              holds.incomplete a h inside (ground (arith, d))
            ∙ ap ok (load_range-page o es inside)))
