-- ===== src/FileStore/Tail.antt =====
-- `readLastLines` of packages/sdk/src/core/events/file.ts: the last lines of a file, read backwards
-- in chunks. Each turn of the loop is one unit of fuel; the file's length is enough.
pub mod Slices
pub mod Reference
use roj.Base.{
  ℕ, zero, suc, ◌-◌, min, Bool, true, false, not, ◌&&◌, ◌||◌, List, [], ◌∷◌, ◌++◌, if◌then◌else◌,
  ◌==◌, leb, ltb, length, take, drop, is_empty,
}
use roj.FileStore.{Bytes, Text, Codec, split_lines}

abbrev pub chunk_size : ℕ
chunk_size = 8192

pub record TailRead : Type 0 where
  pub position : ℕ
  pub buffer : Text
  pub tail_dropped : Bool
  pub lines : List Text

abbrev pub init : List Text → List Text
init [] = []
init (p ∷ []) = []
init (p ∷ q ∷ ps) = p ∷ init (q ∷ ps)

-- `lines.slice(-n)` for a positive `n`.
abbrev pub take_last : ℕ → List Text → List Text
take_last n lines = drop (length lines - n) lines

module _ {E : Type 0} (c : Codec E) where
  -- The loop over the parts from the last one on, until there are enough lines.
  unfoldable pub add_from_end : ℕ → List Text → List Text → List Text
  add_from_end count [] lines = lines
  add_from_end count (p ∷ ps) lines =
      let later = add_from_end count ps lines in
      if leb count (length later)
      then later
      else if is_empty (c.trim p)
      then later
      else c.trim p ∷ later

  -- The parts after the first: a tail without a newline is dropped once.
  abbrev pub scan_parts : ℕ → TailRead → Text → List Text → TailRead
  scan_parts count s first [] = record s { buffer = first }
  scan_parts count s first (p ∷ ps) = record s {
    buffer = first;
    tail_dropped = true;
    lines = add_from_end count (if s.tail_dropped then p ∷ ps else init (p ∷ ps)) s.lines;
  }

  abbrev pub split_buffer : ℕ → TailRead → List Text → TailRead
  split_buffer count s [] = s
  split_buffer count s (first ∷ rest) = scan_parts count s first rest

  unfoldable pub read_chunk : Bytes → ℕ → TailRead → TailRead
  unfolding add_from_end split_lines
  read_chunk file count s =
      let size = min chunk_size s.position in
      let position = s.position - size in
      let chunk = c.decode (take size (drop position file)) in
      split_buffer count (record s { position = position }) (split_lines (chunk ++ s.buffer))

  unfoldable pub read_chunks : ℕ → Bytes → ℕ → TailRead → TailRead
  unfolding read_chunk
  read_chunks zero file count s = s
  read_chunks (suc fuel) file count s =
      let rest = read_chunks fuel file count (read_chunk file count s) in
      if ltb 0 s.position && ltb (length s.lines) count then rest else s

  -- The first line of the file, and the slice at the end.
  abbrev pub finish : ℕ → TailRead → List Text
  finish count s = take_last count (
      if s.tail_dropped && not (is_empty (c.trim s.buffer)) && ltb (length s.lines) count
      then c.trim s.buffer ∷ s.lines
      else s.lines)

  abbrev pub at_end : Bytes → TailRead
  at_end file = record { position = length file; buffer = []; tail_dropped = false; lines = [] }

  unfoldable pub read_last_lines : Bytes → ℕ → List Text
  unfolding read_chunks
  read_last_lines file count =
      if leb count 0
      then []
      else if is_empty file
      then []
      else finish count (read_chunks (length file) file count (at_end file))

  -- What it stands for: the complete lines that are not blank, of which the last are taken.
  abbrev pub trimmed : List Text → List Text
  trimmed [] = []
  trimmed (p ∷ ps) = let rest = trimmed ps in if is_empty (c.trim p) then rest else c.trim p ∷ rest

  unfoldable pub last_lines : Bytes → ℕ → List Text
  unfolding split_lines
  last_lines file count = take_last count (trimmed (init (split_lines file)))
