-- ===== src/FileStore/Append.antt =====
-- An append either commits, leaves the log as it was, or leaves an outcome that is not known.
use mathlib.Core.Option.{some-injective}
use roj.Base.{
  ℕ, ◌+◌, ◌≡◌, refl, sym, subst, ap, ◌∙◌, Bool, true, not, Option, none, some, List, [], ◌∷◌, ◌++◌,
  append_assoc, append-nil, ◌==◌, ltb, length, length-append, take, drop, is_empty, get_or, arith,
  Option-cases, if_both, inl, inr, ==_iff, Result, ok, err,
}
use roj.FileStore.{
  Bytes, newline, Codec, FileLog, AppendError, not_appended, outcome_unknown, Faults, text_of,
  content_of, complete_length, size_of, size_on_disk, committed_size, same_bytes, unknown_outcome,
  roll_back, append_at, do_append_batch,
}
use roj.FileStore.Lines.{has_no_newline, take-length, drop-length}
use roj.FileStore.Contents.{Faithful, complete_length-content_of, take-content_of}

module _ {E : Type 0} (c : Codec E) where
  -- The log on disk is the lines of these events and perhaps an incomplete line, and a length that
  -- is cached is the length of the lines, with nothing after them.
  pub record Holds (log : FileLog) (es : List E) : Type 0 where
    pub torn : Bytes
    pub incomplete : has_no_newline torn ≡ true
    pub bytes : get_or log.bytes [] ≡ content_of c es ++ torn
    pub cached : (n : ℕ) → log.committed ≡ some n → (n ≡ length (content_of c es)) × (torn ≡ [])

  -- What an append of `new` to a log of `es` may come to.
  pub data Appended (es new : List E) : Result AppendError (Unit {0}) × FileLog → Type 0 where
    committed : {log : FileLog} → Holds log (es ++ new) → Appended es new (ok tt, log)
    unchanged : {log : FileLog} → Holds log es → Appended es new (err not_appended, log)
    partly :
        {log : FileLog} (j : ℕ)
        → log.stale ≡ true
        → Holds log (es ++ take j new)
        → Appended es new (err outcome_unknown, log)

  -- A failed write leaves the file with a prefix of the content behind what was there.
  unfoldable pub WritesPrefix : Faults → List E → FileLog → Type 0
  WritesPrefix d new log =
      (left : Option Bytes)
      → d.append_failed ≡ some left
      → (k : ℕ) × (get_or left []
          ≡ get_or (committed_size c d log).1.bytes [] ++ take k (content_of c new))

  abbrev pub Sized : List E → Option ℕ × FileLog → Type 0
  Sized es (none, log) = Holds log es
  Sized es (some n, log) = (n ≡ length (content_of c es)) × (get_or log.bytes [] ≡ content_of c es)

  module _ (law : Faithful c) where
    pub content_of-append :
        (xs ys : List E) → content_of c (xs ++ ys) ≡ content_of c xs ++ content_of c ys
    unfolding content_of text_of
    content_of-append [] ys = rw law.encode_nothing refl
    content_of-append (x ∷ xs) ys =
        law.encode_line x (xs ++ ys)
        ∙ ap (λ b. c.encode (c.stringify x) ++ (newline ∷ b)) (content_of-append xs ys)
        ∙ sym
            (append_assoc (c.encode (c.stringify x)) (newline ∷ content_of c xs) (content_of c ys))
        ∙ ap (λ b. b ++ content_of c ys) (sym (law.encode_line x xs))

    pub nil_of : (torn : Bytes) (n : ℕ) → n ≡ n + length torn → torn ≡ []
    nil_of [] n h = refl
    nil_of (x ∷ xs) n h = absurd (omega (arith, h))

    is_empty-nil : (xs : Bytes) → is_empty xs ≡ true → xs ≡ []
    is_empty-nil [] h = refl
    is_empty-nil (x ∷ xs) h = absurd (ground (arith, h))

    size_of-Sized :
        (d : Faults) (b : Bytes) (log : FileLog) (es : List E)
        → log.bytes ≡ some b
        → Holds log es
        → Sized es (size_of c d b log)
    size_of-Sized d b log es f h =
        let here : b ≡ content_of c es ++ h.torn = ap (λ o. get_or o []) (sym f) ∙ h.bytes in
        let size : complete_length b ≡ length (content_of c es) =
          ap complete_length here ∙ complete_length-content_of c law es h.torn h.incomplete in
        if_both (Sized es) (complete_length b == length b) _ _
          (λ e.
            let whole = (==_iff (complete_length b) (length b)).0 e in
            let total = ap length here ∙ length-append (content_of c es) h.torn in
            let gone =
              nil_of h.torn (length (content_of c es)) (omega (arith, whole, size, total)) in
            (
              size,
              ap (λ o. get_or o []) f
                  ∙ here
                  ∙ ap (λ t. content_of c es ++ t) gone
                  ∙ append-nil (content_of c es),
            ))
          (λ e.
            if_both (Sized es) d.can_replace _ _
              (λ k. (
                size,
                ap (λ n. take n b) size
                    ∙ ap (take (length (content_of c es))) here
                    ∙ take-length (content_of c es) h.torn,
              ))
              (λ k. h))

    size_on_disk-Sized :
        (d : Faults) (o : Option Bytes) (log : FileLog) (es : List E)
        → log.bytes ≡ o
        → Holds log es
        → Sized es (size_on_disk c d o log)
    size_on_disk-Sized d (some b) log es f h = size_of-Sized d b log es f h
    size_on_disk-Sized d none log es f h =
        let here : [] ≡ content_of c es ++ h.torn = ap (λ o. get_or o []) (sym f) ∙ h.bytes in
        let total = ap length here ∙ length-append (content_of c es) h.torn in
        let gone = nil_of h.torn (length (content_of c es)) (omega (arith, total)) in
        (
          omega (arith, total),
          h.bytes ∙ ap (λ t. content_of c es ++ t) gone ∙ append-nil (content_of c es),
        )

    pub committed_size-Sized :
        (d : Faults) (log : FileLog) (es : List E)
        → Holds log es
        → Sized es (committed_size c d log)
    unfolding committed_size
    committed_size-Sized d log es h = elim (Option-cases log.committed) [
      | inr (n, f) ↦
          let (size, gone) = h.cached n f in
          rw (committed_size, f)
            (size, h.bytes ∙ ap (λ t. content_of c es ++ t) gone ∙ append-nil (content_of c es))
      | inl f ↦
          rw (committed_size, f)
            (if_both (Sized es) d.can_read _ _ (λ k. size_on_disk-Sized d log.bytes log es refl h)
              (λ k. h))
    ]

    -- A log of exactly these lines, with their length cached.
    exact-Holds :
        (b : Option Bytes) (n : ℕ) (stale : Bool) (es : List E)
        → get_or b [] ≡ content_of c es
        → n ≡ length (content_of c es)
        → Holds (record { bytes = b; committed = some n; stale = stale }) es
    exact-Holds b n stale es e size = record {
      torn = [];
      incomplete = refl;
      bytes = e ∙ sym (append-nil (content_of c es));
      cached = λ k f. (sym (some-injective n k f) ∙ size, refl);
    }

    module _ (es new : List E) (left : Option Bytes) (k : ℕ) (old : FileLog)
        (wrote : get_or left [] ≡ content_of c es ++ take k (content_of c new)) where
      unknown-Appended :
          Appended es new (unknown_outcome c (record old { bytes = left; committed = none }))
      unknown-Appended =
          let (j, torn, whole, q) = take-content_of c law k new in
          partly j refl (record {
            torn = torn;
            incomplete = whole;
            bytes =
                wrote
                ∙ ap (λ b. content_of c es ++ b) q
                ∙ sym (append_assoc (content_of c es) (content_of c (take j new)) torn)
                ∙ ap (λ b. b ++ torn) (sym (content_of-append es (take j new)));
            cached = λ n f. absurd (ground (arith, f));
          })

      empty_tail :
          (n : ℕ)
          → n ≡ length (content_of c es)
          → is_empty (drop n (get_or left [])) ≡ true
          → get_or left [] ≡ content_of c es
      empty_tail n size e =
          let written = take k (content_of c new) in
          let tail : drop n (get_or left []) ≡ written =
            ap (λ x. drop x (get_or left [])) size
            ∙ ap (drop (length (content_of c es))) wrote
            ∙ drop-length (content_of c es) written in
          let gone = is_empty-nil written (ap is_empty (sym tail) ∙ e) in
          wrote ∙ ap (λ b. content_of c es ++ b) gone ∙ append-nil (content_of c es)

      roll_back-Appended :
          (d : Faults) (n : ℕ)
          → n ≡ length (content_of c es)
          → Appended es new (roll_back c d n (content_of c new) left old)
      unfolding roll_back
      roll_back-Appended d n size =
          let P = Appended es new in
          let bytes = get_or left [] in
          let tail = drop n bytes in
          if_both P (not d.can_read_after) _ _ (λ a. unknown-Appended)
            (λ a.
              if_both P (ltb (length bytes) n) _ _ (λ b. unknown-Appended)
                (λ b.
                  if_both P (not (same_bytes c tail (take (length tail) (content_of c new)))) _ _
                    (λ e. unknown-Appended)
                    (λ e.
                      if_both P (is_empty tail) _ _
                        (λ f.
                          unchanged (exact-Holds left n old.stale es (empty_tail n size f) size))
                        (λ f.
                          if_both P d.can_replace_after _ _
                            (λ g. unchanged (
                              exact-Holds (some (take n bytes)) n old.stale es
                                (ap (λ x. take x bytes) size
                                  ∙ ap (take (length (content_of c es))) wrote
                                  ∙ take-length (content_of c es) (take k (content_of c new)))
                                size))
                            (λ g. unknown-Appended)))))

    append_at-Appended :
        (d : Faults) (es new : List E) (sized : Option ℕ × FileLog)
        → Sized es sized
        → ((left : Option Bytes)
            → d.append_failed ≡ some left
            → (k : ℕ) × (get_or left [] ≡ get_or sized.1.bytes [] ++ take k (content_of c new)))
        → Appended es new (append_at c d (content_of c new) sized)
    append_at-Appended d es new (none, log) h w = unchanged h
    append_at-Appended d es new (some n, log) (size, exact) w =
        elim (Option-cases d.append_failed) [
          | inr (left, f) ↦
              let (k, e) = w left f in
              rw (append_at, f)
                (roll_back-Appended es new left k log
                  (e ∙ ap (λ b. b ++ take k (content_of c new)) exact) d n size)
          | inl f ↦
              let total = length-append (content_of c es) (content_of c new) in
              let joined = ap length (content_of-append es new) in
              rw (append_at, f)
                (committed (
                  exact-Holds (some (get_or log.bytes [] ++ content_of c new))
                    (n + length (content_of c new)) (not d.can_update_metadata) (es ++ new)
                    (ap (λ b. b ++ content_of c new) exact ∙ sym (content_of-append es new))
                    (omega (arith, size, total, joined))))
        ]

-- An append to a log of the events `es`, whatever of the file system fails in its course: when it
-- succeeds the log holds the new events behind the old ones, when it reports that nothing was
-- appended the log holds the old ones, and when the outcome is not known it holds the old ones and
-- some first ones of the new, with the metadata marked stale. The cached length is right
-- whenever there is one, and an incomplete line never gets into the middle of the log. A failed
-- write leaves the file with a prefix of what it was to write.
pub do_append_batch-Appended :
    {E : Type 0} (c : Codec E)
    → Faithful c
    → (d : Faults) (log : FileLog) (es new : List E) → Holds c log es
    → WritesPrefix c d new log
    → Appended c es new (do_append_batch c d new log)
unfolding do_append_batch WritesPrefix
do_append_batch-Appended c law d log es [] h w =
    committed (subst (Holds c log) (sym (append-nil es)) h)
do_append_batch-Appended c law d log es (e ∷ new) h w =
    if_both (Appended c es (e ∷ new)) d.can_prepare _ _
      (λ p.
        append_at-Appended c law d es (e ∷ new) (committed_size c d log)
          (committed_size-Sized c law d log es h) w)
      (λ p. unchanged h)
