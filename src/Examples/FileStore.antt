-- ===== src/Examples/FileStore.antt =====
-- The theorems on the log file, at events that are Booleans, written as one letter each.
use roj.Base.{
  ℕ, ◌≡◌, refl, Bool, true, false, Option, none, some, List, [], ◌∷◌, ◌==◌, if◌then◌else◌, get_or,
  ok, err, arith, ap, sym,
}
use roj.Base.Int.{pos}
use roj.FileStore.Lines.{has_no_newline}
use mathlib.Core.Option.{some-injective}
use roj.Store.Range.{LoadRangeOptions, load_range}
use roj.FileStore.{
  Bytes, Text, Codec, FileLog, Faults, not_appended, text_of, content_of, committed_size, roll_back,
  split_lines, parse_lines, complete_length, read_events, do_append_batch,
}
use roj.FileStore.Contents.{Faithful}
use roj.FileStore.Append.{Holds, Appended, WritesPrefix, do_append_batch-Appended}
use roj.FileStore.History.{
  LogStep, put, crash, read, Kept, run_steps, attempts, ArePossible, no_log, read_events-Kept,
}
use roj.FileStore.Tail.{read_last_lines, last_lines}
use roj.FileStore.Tail.Slices.{IsAscii}
use roj.FileStore.Tail.Reference.{read_last_lines-last_lines}
use roj.FileStore.Range.{read_range}
use roj.FileStore.Refines.{read_range-load_range}

abbrev pub letter : Bool → ℕ
letter true = 116
letter false = 102

abbrev pub read_letter : Text → Option Bool
read_letter (x ∷ []) = if x == 116 then some true else if x == 102 then some false else none
read_letter _ = none

abbrev pub letters : Codec Bool
letters = record {
  stringify = λ b. letter b ∷ [];
  parse = read_letter;
  encode = λ t. t;
  decode = λ b. b;
  trim = λ t. t;
}

pub letters-Faithful : Faithful letters
unfolding content_of text_of
letters-Faithful = record {
  encode_nothing = refl;
  encode_line = λ e es. refl;
  one_line = λ e. plain_letter e;
  one_encoded_line = λ e. plain_letter e;
  decode_encode = λ es. refl;
  parse_stringify = λ e. read_back e;
  not_blank = λ e. refl;
  no_margin = λ e. refl;
  trim_nothing = refl;
}
  where
    plain_letter : (e : Bool) → has_no_newline (letter e ∷ []) ≡ true
    plain_letter true = refl
    plain_letter false = refl

    read_back : (e : Bool) → read_letter (letter e ∷ []) ≡ some e
    read_back true = refl
    read_back false = refl

-- Two lines, and one that was never completed.
abbrev pub torn_log : FileLog
torn_log = record { bytes = some (116 ∷ 10 ∷ 102 ∷ 10 ∷ 116 ∷ []); committed = none; stale = false }

pub torn_log-Holds : Holds letters torn_log (true ∷ false ∷ [])
unfolding content_of text_of
torn_log-Holds = record {
  torn = 116 ∷ [];
  incomplete = refl;
  bytes = refl;
  cached = λ n f. absurd (ground (arith, f));
}

-- The write fails after the first of its lines and one byte of the second.
abbrev failing : Faults
failing = record {
  can_prepare = true;
  can_read = true;
  can_replace = true;
  append_failed = some (some (116 ∷ 10 ∷ 102 ∷ 10 ∷ 102 ∷ 10 ∷ 116 ∷ []));
  can_read_after = true;
  can_replace_after = true;
  can_update_metadata = true;
}

failing-WritesPrefix : WritesPrefix letters failing (false ∷ true ∷ []) torn_log
unfolding WritesPrefix content_of text_of committed_size complete_length
failing-WritesPrefix left f = (3, ap (λ o. get_or o []) (sym (some-injective _ left f)))

do_append_batch-Appended_example :
    Appended letters
      (true ∷ false ∷ [])
      (false ∷ true ∷ [])
      (do_append_batch letters failing (false ∷ true ∷ []) torn_log)
do_append_batch-Appended_example =
    do_append_batch-Appended letters letters-Faithful failing torn_log (true ∷ false ∷ [])
      (false ∷ true ∷ []) torn_log-Holds failing-WritesPrefix

abbrev fine : Faults
fine = record failing { append_failed = none }

-- One batch is written, one is undone, one is cut off by the end of the process, one follows.
abbrev life : List (LogStep Bool)
life =
    put fine (true ∷ false ∷ [])
    ∷ put failing (false ∷ true ∷ [])
    ∷ crash fine 3 (false ∷ true ∷ [])
    ∷ read true
    ∷ put fine (true ∷ [])
    ∷ []

fine-WritesPrefix : (new : List Bool) (log : FileLog) → WritesPrefix letters fine new log
unfolding WritesPrefix
fine-WritesPrefix new log left f = absurd (ground (arith, f))

life-ArePossible : ArePossible letters life no_log
unfolding WritesPrefix do_append_batch content_of text_of committed_size complete_length roll_back
    read_events parse_lines split_lines
life-ArePossible = (
  fine-WritesPrefix (true ∷ false ∷ []) no_log,
  (
    (λ left f. (3, ap (λ o. get_or o []) (sym (some-injective _ left f)))),
    ((4, refl), (tt, ((λ left f. absurd (ground (arith, f))), tt))),
  ),
)

read_events-Kept_example :
    (es : List Bool) × ((read_events letters true (run_steps letters life no_log)).0 ≡ ok es)
    × Kept (attempts letters life no_log) es
read_events-Kept_example = read_events-Kept letters letters-Faithful life life-ArePossible

-- What the file holds after that.
life_read :
    (read_events letters true (run_steps letters life no_log)).0
    ≡ ok (true ∷ false ∷ false ∷ true ∷ [])
unfolding do_append_batch content_of text_of committed_size complete_length roll_back read_events
    parse_lines split_lines
life_read = refl

abbrev pub ascii_bytes : (b : Bytes) → IsAscii b → letters.decode b ≡ b
ascii_bytes b h = refl

pub torn_log-IsAscii : IsAscii (get_or torn_log.bytes [])
torn_log-IsAscii = (omega arith, (omega arith, (omega arith, (omega arith, (omega arith, tt)))))

read_last_lines-last_lines_example :
    read_last_lines letters (get_or torn_log.bytes []) 1
    ≡ last_lines letters (get_or torn_log.bytes []) 1
read_last_lines-last_lines_example =
    read_last_lines-last_lines letters ascii_bytes (get_or torn_log.bytes []) 1 torn_log-IsAscii

abbrev after_first : LoadRangeOptions
after_first = record { since = some (pos 0); limit = some 5 }

read_range-load_range_example :
    read_range letters true 2 after_first torn_log ≡ ok (load_range after_first (true ∷ false ∷ []))
read_range-load_range_example =
    read_range-load_range letters letters-Faithful ascii_bytes after_first torn_log
      (true ∷ false ∷ []) torn_log-Holds torn_log-IsAscii (λ f. absurd (ground (arith, f)))

-- The failed append is undone, and the incomplete line of before is gone with it.
undone : do_append_batch letters failing (false ∷ true ∷ []) torn_log ≡ (
  err not_appended,
  record { bytes = some (116 ∷ 10 ∷ 102 ∷ 10 ∷ []); committed = some 4; stale = false },
)
unfolding do_append_batch content_of text_of committed_size complete_length roll_back
undone = refl

-- A limit of 0 cuts nothing off.
no_limit :
    read_range letters true 2 (record { since = none; limit = some 0 }) torn_log
    ≡ ok (record { events = true ∷ false ∷ []; from_index = pos 0; to_index = pos 1 })
unfolding read_range read_events complete_length parse_lines split_lines
no_limit = refl
