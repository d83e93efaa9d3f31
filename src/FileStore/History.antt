-- ===== src/FileStore/History.antt =====
-- The life of a log file: appends that may fail, processes that end in the middle of one, new
-- instances, reads.
use roj.Base.{
  ℕ, ◌≡◌, refl, sym, subst, ap, ◌∙◌, Bool, true, false, Option, none, some, List, [], ◌∷◌, ◌++◌,
  append_assoc, append-nil, if◌then◌else◌, ◌==◌, ==_iff, length, length-append, take, get_or, arith,
  Result, ok, err,
}
use mathlib.Core.Option.{some-injective}
use roj.FileStore.{
  Bytes, Codec, FileLog, AppendError, not_appended, outcome_unknown, Faults, content_of,
  complete_length, committed_size, read_bytes, read_events, do_append_batch,
}
use roj.FileStore.Contents.{
  Faithful, content_of-nil, complete_length-content_of, read_events-content_of,
}
use roj.FileStore.Append.{
  Holds, Appended, committed, unchanged, partly, WritesPrefix, do_append_batch-Appended, nil_of,
}
use roj.FileStore.Recovery.{crashed, crashed-Holds}

-- What the writer hears of a batch; nothing, where its process ends.
pub data Outcome : Type 0 where
  acknowledged refused unknown : Outcome

pub data LogStep (E : Type 0) : Type 0 where
  put : Faults → List E → LogStep E
  -- The process ends when so many bytes of the batch are written.
  crash : Faults → ℕ → List E → LogStep E
  -- A new instance.
  restart : LogStep E
  read : (can_read : Bool) → LogStep E

-- What is left of a batch in the log.
pub data Part {E : Type 0} : Outcome → List E → List E → Type 0 where
  whole : {b : List E} → Part acknowledged b b
  nothing : {b : List E} → Part refused b []
  first_ones : {b : List E} (j : ℕ) → Part unknown b (take j b)

pub data Kept {E : Type 0} : List (Outcome × List E) → List E → Type 0 where
  end : Kept [] []
  attempt :
      {o : Outcome} {b p : List E} {past : List (Outcome × List E)} {es : List E}
      → Part o b p
      → Kept past es
      → Kept ((o, b) ∷ past) (p ++ es)

abbrev outcome_of : Result AppendError (Unit {0}) → Outcome
outcome_of (ok _) = acknowledged
outcome_of (err not_appended) = refused
outcome_of (err outcome_unknown) = unknown

some_if :
    (b : Bool) (size n : ℕ) → (if b then some size else none) ≡ some n → (b ≡ true) × (size ≡ n)
some_if true size n e = (refl, some-injective size n e)
some_if false size n e = absurd (ground (arith, e))

module _ {E : Type 0} (c : Codec E) where
  abbrev pub after : LogStep E → FileLog → FileLog
  after (put d new) log = (do_append_batch c d new log).1
  after (crash d k new) log = crashed c d k new log
  after restart log = record log { committed = none; stale = false }
  after (read can_read) log = (read_events c can_read log).1

  abbrev pub attempted : LogStep E → FileLog → List (Outcome × List E)
  attempted (put d new) log = (outcome_of (do_append_batch c d new log).0, new) ∷ []
  attempted (crash d k new) log = (unknown, new) ∷ []
  attempted _ log = []

  abbrev pub run_steps : List (LogStep E) → FileLog → FileLog
  run_steps [] log = log
  run_steps (s ∷ ss) log = run_steps ss (after s log)

  abbrev pub attempts : List (LogStep E) → FileLog → List (Outcome × List E)
  attempts [] log = []
  attempts (s ∷ ss) log = attempted s log ++ attempts ss (after s log)

  -- A failed write leaves a prefix of its content, and a process that ends in a write began it.
  abbrev pub IsPossible : LogStep E → FileLog → Type 0
  IsPossible (put d new) log = WritesPrefix c d new log
  IsPossible (crash d k new) log = (n : ℕ) × ((committed_size c d log).0 ≡ some n)
  IsPossible _ log = Unit

  abbrev pub ArePossible : List (LogStep E) → FileLog → Type 0
  ArePossible [] log = Unit
  ArePossible (s ∷ ss) log = IsPossible s log × ArePossible ss (after s log)

  -- A step leaves the log with these events more.
  Adds : List (Outcome × List E) → List E → FileLog → Type 0
  Adds said es log =
      (added : List E) × ((past : List (Outcome × List E)) (xs : List E)
        → Kept past xs
        → Kept (said ++ past) (added ++ xs))
      × Holds c log (es ++ added)

  Appended-Adds :
      (es new : List E) {r : Result AppendError (Unit {0}) × FileLog}
      → Appended c es new r
      → Adds ((outcome_of r.0, new) ∷ []) es r.1
  unfolding Adds
  Appended-Adds es new (committed h) = (new, (λ past xs k. attempt whole k), h)
  Appended-Adds es new (unchanged h) =
      ([], (λ past xs k. attempt nothing k), subst (Holds c _) (sym (append-nil es)) h)
  Appended-Adds es new (partly j s h) = (take j new, (λ past xs k. attempt (first_ones j) k), h)

  still-Adds : (es : List E) (log : FileLog) → Holds c log es → Adds [] es log
  unfolding Adds
  still-Adds es log h = ([], (λ past xs k. k), subst (Holds c log) (sym (append-nil es)) h)

  module _ (law : Faithful c) where
    read_bytes-Holds :
        (log : FileLog) (o : Option Bytes) (es : List E)
        → log.bytes ≡ o
        → Holds c log es
        → Holds c (read_bytes c log o).1 es
    read_bytes-Holds log none es f h = h
    read_bytes-Holds log (some b) es f h =
        let here : b ≡ content_of c es ++ h.torn = ap (λ o. get_or o []) (sym f) ∙ h.bytes in
        let size : complete_length b ≡ length (content_of c es) =
          ap complete_length here ∙ complete_length-content_of c law es h.torn h.incomplete in
        let total = ap length here ∙ length-append (content_of c es) h.torn in
        record {
          torn = h.torn;
          incomplete = h.incomplete;
          bytes = h.bytes;
          cached = λ n e.
              let (equal, same) = some_if (complete_length b == length b) (complete_length b) n e in
              let all = (==_iff (complete_length b) (length b)).0 equal in
              (
                sym same ∙ size,
                nil_of c law h.torn (length (content_of c es)) (omega (arith, all, size, total)),
              );
        }

    read_events-Holds :
        (can_read : Bool) (log : FileLog) (es : List E)
        → Holds c log es
        → Holds c (read_events c can_read log).1 es
    unfolding read_events
    read_events-Holds false log es h = h
    read_events-Holds true log es h = read_bytes-Holds log log.bytes es refl h

    after-Adds :
        (s : LogStep E) (log : FileLog) (es : List E)
        → IsPossible s log
        → Holds c log es
        → Adds (attempted s log) es (after s log)
    unfolding Adds
    after-Adds (put d new) log es p h =
        Appended-Adds es new (do_append_batch-Appended c law d log es new h p)
    after-Adds (crash d k new) log es p h =
        let (j, _, left) = crashed-Holds c law d k p.0 log es new h p.1 in
        (take j new, (λ past xs k. attempt (first_ones j) k), left)
    after-Adds restart log es p h = still-Adds es (after restart log) (record {
      torn = h.torn;
      incomplete = h.incomplete;
      bytes = h.bytes;
      cached = λ n e. absurd (ground (arith, e));
    })
    after-Adds (read can_read) log es p h =
        still-Adds es (after (read can_read) log) (read_events-Holds can_read log es h)

    pub run_steps-Kept :
        (ss : List (LogStep E)) (log : FileLog) (es : List E)
        → ArePossible ss log
        → Holds c log es
        → (added : List E) × Kept (attempts ss log) added × Holds c (run_steps ss log) (es ++ added)
    unfolding Adds
    run_steps-Kept [] log es p h = ([], end, subst (Holds c log) (sym (append-nil es)) h)
    run_steps-Kept (s ∷ ss) log es p h =
        let (one, keep, now) = after-Adds s log es p.0 h in
        let (more, kept, last) = run_steps-Kept ss (after s log) (es ++ one) p.1 now in
        (
          one ++ more,
          keep (attempts ss (after s log)) more kept,
          subst (Holds c (run_steps ss (after s log))) (append_assoc es one more) last,
        )

abbrev pub no_log : FileLog
no_log = record { bytes = none; committed = none; stale = false }

-- From an empty directory on, whatever appends, failures, crashes, restarts and reads follow, the
-- log can be read, and holds exactly this, in the order of the attempts: of a batch that was
-- acknowledged all events, of one that was refused none, and of one whose outcome is unknown, or
-- whose writer ended, some first ones. A write that fails, or whose process ends, leaves the file
-- with a prefix of what it was to write.
pub read_events-Kept :
    {E : Type 0} (c : Codec E)
    → Faithful c
    → (ss : List (LogStep E)) → ArePossible c ss no_log
    → (es : List E) × ((read_events c true (run_steps c ss no_log)).0 ≡ ok es)
      × Kept (attempts c ss no_log) es
read_events-Kept c law ss p =
    let empty : Holds c no_log [] = record {
      torn = [];
      incomplete = refl;
      bytes = sym (ap (λ b. b ++ []) (content_of-nil c law));
      cached = λ n e. absurd (ground (arith, e));
    } in
    let (es, kept, held) = run_steps-Kept c law ss no_log [] p empty in
    (
      es,
      read_events-content_of c law (run_steps c ss no_log) es held.torn held.incomplete held.bytes,
      kept,
    )
