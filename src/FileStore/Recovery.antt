-- ===== src/FileStore/Recovery.antt =====
-- What a new instance finds after a process ended in the middle of an append.
use roj.Base.{
  ℕ, ◌≡◌, sym, ap, ◌∙◌, true, false, Option, none, some, List, [], ◌++◌, append_assoc, take, get_or,
  arith, ok,
}
use roj.FileStore.{Codec, FileLog, Faults, content_of, committed_size, read_events}
use roj.FileStore.Contents.{Faithful, take-content_of, read_events-content_of}
use roj.FileStore.Append.{Holds, Sized, committed_size-Sized, content_of-append}

module _ {E : Type 0} (c : Codec E) where
  -- The file with `k` bytes of the content written, as an instance sees it that has cached nothing.
  abbrev pub crashed : Faults → ℕ → List E → FileLog → FileLog
  crashed d k new log = record {
    bytes = some (get_or (committed_size c d log).1.bytes [] ++ take k (content_of c new));
    committed = none;
    stale = false;
  }

  -- A process that ends in the middle of an append, after any number of bytes, leaves a log in which
  -- the old events are followed by some first ones of the new: that is what a new instance
  -- reads, and it can append behind them.
  pub crashed-Holds :
      Faithful c
      → (d : Faults) (k n : ℕ) (log : FileLog) (es new : List E) → Holds c log es
      → (committed_size c d log).0 ≡ some n
      → (j : ℕ) × ((read_events c true (crashed d k new log)).0 ≡ ok (es ++ take j new))
        × Holds c (crashed d k new log) (es ++ take j new)
  crashed-Holds law d k n log es new h e =
      let (j, torn, whole, q) = take-content_of c law k new in
      let exact = exact_size (committed_size c d log) (committed_size-Sized c law d log es h) e in
      let bytes =
        ap (λ b. b ++ take k (content_of c new)) exact
        ∙ ap (λ b. content_of c es ++ b) q
        ∙ sym (append_assoc (content_of c es) (content_of c (take j new)) torn)
        ∙ ap (λ b. b ++ torn) (sym (content_of-append c law es (take j new))) in
      (
        j,
        read_events-content_of c law (crashed d k new log) (es ++ take j new) torn whole bytes,
        record {
          torn = torn;
          incomplete = whole;
          bytes = bytes;
          cached = λ m f. absurd (ground (arith, f));
        },
      )
    where
      exact_size :
          (s : Option ℕ × FileLog)
          → Sized c es s
          → s.0 ≡ some n
          → get_or s.1.bytes [] ≡ content_of c es
      exact_size (none, l) w f = absurd (ground (arith, f))
      exact_size (some m, l) w f = w.1
