-- ===== src/FileStore/Contents.antt =====
-- What a log file holds: the lines of its events, then perhaps a line that was never completed.
use roj.Base.{
  ℕ, zero, suc, ◌+◌, ◌-◌, ◌≡◌, refl, sym, ap, ◌∙◌, true, false, Option, none, some, List, [], ◌∷◌,
  ◌++◌, append_assoc, length, length-append, take, is_empty, get_or, arith, dec_lt, ok,
}
use roj.FileStore.{
  Bytes, newline, Codec, FileLog, text_of, content_of, parse_lines, read_events, split_lines,
  complete_length, read_bytes,
}
use roj.FileStore.Lines.{
  has_no_newline, complete_length-none, complete_length-line, split_lines-line, take-length,
  has_no_newline-take, take-within, take-beyond,
}

-- Documented of JSON and UTF-8: a value's JSON is one line, not blank, with nothing
-- around it, and parses back; the text of
-- whole lines is encoded line by line, with a newline as itself and nowhere else, and decoded back.
pub record Faithful {E : Type 0} (c : Codec E) : Type 0 where
  pub encode_nothing : c.encode [] ≡ []
  pub encode_line :
      (e : E) (es : List E)
      → content_of c (e ∷ es) ≡ c.encode (c.stringify e) ++ (newline ∷ content_of c es)
  pub one_line : (e : E) → has_no_newline (c.stringify e) ≡ true
  pub one_encoded_line : (e : E) → has_no_newline (c.encode (c.stringify e)) ≡ true
  pub decode_encode : (es : List E) → c.decode (content_of c es) ≡ text_of c es
  pub parse_stringify : (e : E) → c.parse (c.stringify e) ≡ some e
  pub not_blank : (e : E) → is_empty (c.trim (c.stringify e)) ≡ false
  pub no_margin : (e : E) → c.trim (c.stringify e) ≡ c.stringify e
  pub trim_nothing : c.trim [] ≡ []

module _ {E : Type 0} (c : Codec E) (law : Faithful c) where
  pub content_of-nil : content_of c [] ≡ []
  unfolding content_of text_of
  content_of-nil = law.encode_nothing

  pub complete_length-content_of :
      (es : List E) (torn : Bytes)
      → has_no_newline torn ≡ true
      → complete_length (content_of c es ++ torn) ≡ length (content_of c es)
  complete_length-content_of [] torn h = rw content_of-nil (complete_length-none torn h)
  complete_length-content_of (e ∷ es) torn h =
      let line = c.encode (c.stringify e) in
      let ih = complete_length-content_of es torn h in
      let rest = newline ∷ content_of c es in
      let total = length-append line rest in
      let first = complete_length-line line (content_of c es ++ torn) in
      rw (law.encode_line e es, append_assoc line rest torn) (omega (arith, first, ih, total))

  parse_lines-text_of : (i : ℕ) (es : List E) → parse_lines c i (split_lines (text_of c es)) ≡ ok es
  unfolding parse_lines split_lines text_of
  parse_lines-text_of i [] = rw law.trim_nothing refl
  parse_lines-text_of i (e ∷ es) =
      let line = c.stringify e in
      let ih = parse_lines-text_of (i + 1) es in
      rw (
        append_assoc line (newline ∷ []) (text_of c es),
        split_lines-line line (text_of c es) (law.one_line e),
        parse_lines,
        law.not_blank e,
        law.parse_stringify e,
        ih,
      )

  pub nothing_written : (es : List E) (torn : Bytes) → [] ≡ content_of c es ++ torn → es ≡ []
  nothing_written [] torn h = refl
  nothing_written (e ∷ es) torn h =
      let line = c.encode (c.stringify e) in
      let rest = newline ∷ content_of c es in
      let sizes = ap length h in
      let whole = ap (λ b. length (b ++ torn)) (law.encode_line e es) in
      let outer = length-append (line ++ rest) torn in
      let inner = length-append line rest in absurd (omega (arith, sizes, whole, outer, inner))

  read_bytes-content_of :
      (log : FileLog) (o : Option Bytes) (es : List E) (torn : Bytes)
      → has_no_newline torn ≡ true
      → get_or o [] ≡ content_of c es ++ torn
      → (read_bytes c log o).0 ≡ ok es
  read_bytes-content_of log none es torn h e = ap ok (sym (nothing_written es torn e))
  read_bytes-content_of log (some b) es torn h e =
      rw
        (
          e,
          complete_length-content_of es torn h,
          take-length (content_of c es) torn,
          law.decode_encode es,
        )
        (parse_lines-text_of 0 es)

  -- A file of whole lines and one incomplete line reads as the events of the lines.
  pub read_events-content_of :
      (log : FileLog) (es : List E) (torn : Bytes)
      → has_no_newline torn ≡ true
      → get_or log.bytes [] ≡ content_of c es ++ torn
      → (read_events c true log).0 ≡ ok es
  unfolding read_events
  read_events-content_of log es torn h e = read_bytes-content_of log log.bytes es torn h e

  take_nil : (k : ℕ) → take {A = ℕ} k [] ≡ []
  take_nil zero = refl
  take_nil (suc k) = refl

  -- A prefix of the lines of some events is the lines of the first of them and an incomplete line.
  pub take-content_of :
      (k : ℕ) (es : List E)
      → (j : ℕ) × (torn : Bytes) × (has_no_newline torn ≡ true)
        × (take k (content_of c es) ≡ content_of c (take j es) ++ torn)
  take-content_of k [] = (0, [], refl, rw content_of-nil (take_nil k))
  take-content_of k (e ∷ es) =
      let line = c.encode (c.stringify e) in
      let rest = content_of c es in
      elim (dec_lt (length line) k) [
        | no r ↦ (
          0,
          take k line,
          has_no_newline-take k line (law.one_encoded_line e),
          rw (law.encode_line e es, content_of-nil)
              (take-within k line (newline ∷ rest) (omega (arith, r))),
        )
        | yes r ↦
            let left = k - suc (length line) in
            let (j, torn, h, q) = take-content_of left es in
            let same : k ≡ length line + suc left = omega (arith, r) in
            (
              suc j,
              torn,
              h,
              ap (λ n. take n (content_of c (e ∷ es))) same
                  ∙ ap (take (length line + suc left)) (law.encode_line e es)
                  ∙ take-beyond (suc left) line (newline ∷ rest)
                  ∙ ap (λ b. line ++ (newline ∷ b)) q
                  ∙ sym (append_assoc line (newline ∷ content_of c (take j es)) torn)
                  ∙ ap (λ b. b ++ torn) (sym (law.encode_line e (take j es))),
            )
      ]
