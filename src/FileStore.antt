-- ===== src/FileStore.antt =====
-- The event log of one session on disk, packages/sdk/src/core/events/file.ts. A file is the list of
-- its bytes, a text the list of its code units. JSON, UTF-8 and the trimming of lines are a codec.
-- What the file system answers to the calls of one append is a record of faults.
pub mod Lines
pub mod Contents
pub mod Append
pub mod Tail
pub mod Range
pub mod Reader
pub mod Reads
pub mod Refines
pub mod Recovery
pub mod History
use roj.Base.{
  ℕ, zero, suc, ◌+◌, ◌-◌, ◌*◌, min, Bool, true, false, not, ◌&&◌, ◌||◌, Option, none, some, List,
  [], ◌∷◌, ◌++◌, if◌then◌else◌, ◌==◌, ltb, leb, length, take, drop, is_empty, get_or, Result, ok,
  err,
}

abbrev pub Bytes : Type 0
Bytes = List ℕ

abbrev pub Text : Type 0
Text = List ℕ

abbrev pub newline : ℕ
newline = 10

-- `JSON.stringify`, the schema's parse of `JSON.parse`, `Buffer.from`, `Buffer.toString`, `trim`.
pub record Codec (E : Type 0) : Type 0 where
  pub stringify : E → Text
  pub parse : Text → Option E
  pub encode : Text → Bytes
  pub decode : Bytes → Text
  pub trim : Text → Text

abbrev first_part : ℕ → List Text → List Text
first_part x [] = (x ∷ []) ∷ []
first_part x (p ∷ ps) = (x ∷ p) ∷ ps

-- `text.split('\n')`
unfoldable pub split_lines : Text → List Text
split_lines [] = [] ∷ []
split_lines (x ∷ xs) =
    let rest = split_lines xs in if x == newline then [] ∷ rest else first_part x rest

-- `bytes.lastIndexOf(0x0a) + 1`
unfoldable pub complete_length : Bytes → ℕ
complete_length [] = 0
complete_length (x ∷ xs) =
    let rest = complete_length xs in if rest == 0 then if x == newline then 1 else 0 else rest + 1

pub record FileLog : Type 0 where
  -- The file, if it is there.
  pub bytes : Option Bytes
  -- The entry of `committedSizes`.
  pub committed : Option ℕ
  -- The entry of `staleMetadata`.
  pub stale : Bool

pub data LogError : Type 0 where
  -- `EventLogCorruptionError` with the line, from 1 on.
  corrupt : ℕ → LogError
  -- `EventStoreError`
  unreadable : LogError

pub data AppendError : Type 0 where
  not_appended outcome_unknown : AppendError

-- How the file system answers in the course of one append.
pub record Faults : Type 0 where
  -- `mkdir`, and the reading and replacing of the file before the append.
  pub can_prepare : Bool
  pub can_read : Bool
  pub can_replace : Bool
  -- A failed `appendFile`, with the file that it leaves.
  pub append_failed : Option (Option Bytes)
  -- The reading and replacing of the file after that.
  pub can_read_after : Bool
  pub can_replace_after : Bool
  -- The update, or the repair, of the metadata.
  pub can_update_metadata : Bool

module _ {E : Type 0} (c : Codec E) where
  unfoldable pub text_of : List E → Text
  text_of [] = []
  text_of (e ∷ es) = (c.stringify e ++ (newline ∷ [])) ++ text_of es

  -- The content that an append of these events writes.
  unfoldable pub content_of : List E → Bytes
  unfolding text_of
  content_of es = c.encode (text_of es)

  -- The loop over the lines, with the index of the first.
  unfoldable pub parse_lines : ℕ → List Text → Result LogError (List E)
  parse_lines i [] = ok []
  parse_lines i (line ∷ lines) =
      let rest = parse_lines (i + 1) lines in
      if is_empty (c.trim line) then rest else elim (c.parse line) [
        | none ↦ err (corrupt (i + 1))
        | some e ↦ elim rest [ ok es ↦ ok (e ∷ es) | err x ↦ err x ]
      ]

  abbrev read_bytes : FileLog → Option Bytes → Result LogError (List E) × FileLog
  read_bytes log none = (ok [], log)
  read_bytes log (some bytes) =
      let complete = complete_length bytes in
      (
        parse_lines 0 (split_lines (c.decode (take complete bytes))),
        record log { committed = if complete == length bytes then some complete else none },
      )

  unfoldable pub read_events : Bool → FileLog → Result LogError (List E) × FileLog
  unfolding complete_length parse_lines split_lines
  read_events can_read log = if can_read then read_bytes log log.bytes else (err unreadable, log)

  -- The file read before an append; nothing comes back when it throws.
  abbrev size_of : Faults → Bytes → FileLog → Option ℕ × FileLog
  size_of d bytes log =
      let size = complete_length bytes in
      if size == length bytes
      then (some size, record log { committed = some size })
      else if d.can_replace
      then (some size, record log { bytes = some (take size bytes); committed = some size })
      else (none, log)

  abbrev size_on_disk : Faults → Option Bytes → FileLog → Option ℕ × FileLog
  size_on_disk d none log = (some 0, record log { committed = some 0 })
  size_on_disk d (some bytes) log = size_of d bytes log

  unfoldable pub committed_size : Faults → FileLog → Option ℕ × FileLog
  unfolding complete_length
  committed_size d log = elim log.committed [
    | some size ↦ (some size, log)
    | none ↦ if d.can_read then size_on_disk d log.bytes log else (none, log)
  ]

  abbrev pub same_bytes : Bytes → Bytes → Bool
  same_bytes [] [] = true
  same_bytes (x ∷ xs) (y ∷ ys) = x == y && same_bytes xs ys
  same_bytes _ _ = false

  abbrev unknown_outcome : FileLog → Result AppendError (Unit {0}) × FileLog
  unknown_outcome log = (err outcome_unknown, record log { stale = true })

  abbrev rolled_back : ℕ → FileLog → Result AppendError (Unit {0}) × FileLog
  rolled_back committed log = (err not_appended, record log { committed = some committed })

  -- `rollBack` on the file that the failed append left.
  unfoldable pub roll_back :
      Faults → ℕ → Bytes → Option Bytes → FileLog → Result AppendError (Unit {0}) × FileLog
  roll_back d committed appended left log =
      let now = record log { bytes = left; committed = none } in
      let bytes = get_or left [] in
      let tail = drop committed bytes in
      if not d.can_read_after
      then unknown_outcome now
      else if ltb (length bytes) committed
      then unknown_outcome now
      else if not (same_bytes tail (take (length tail) appended))
      then unknown_outcome now
      else if is_empty tail
      then rolled_back committed now
      else if d.can_replace_after
      then rolled_back committed (record now { bytes = some (take committed bytes) })
      else unknown_outcome now

  -- The append at the committed length, and the metadata after it.
  abbrev append_at : Faults → Bytes → Option ℕ × FileLog → Result AppendError (Unit {0}) × FileLog
  append_at d content (none, log) = (err not_appended, log)
  append_at d content (some committed, log) = elim d.append_failed [
    | some left ↦ roll_back d committed content left log
    | none ↦ (
      ok tt,
      record log {
        bytes = some (get_or log.bytes [] ++ content);
        committed = some (committed + length content);
        stale = not d.can_update_metadata;
      },
    )
  ]

  unfoldable pub do_append_batch :
      Faults → List E → FileLog → Result AppendError (Unit {0}) × FileLog
  unfolding content_of committed_size roll_back
  do_append_batch d [] log = (ok tt, log)
  do_append_batch d (e ∷ es) log =
      if d.can_prepare
      then append_at d (content_of (e ∷ es)) (committed_size d log)
      else (err not_appended, log)
