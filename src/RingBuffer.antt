-- ===== src/RingBuffer.antt =====
-- packages/sdk/src/lib/logger/ring-buffer.ts. The array is a function from places to lines;
-- `push` writes below the capacity alone.
pub mod Slices
pub mod Lines
use roj.Base.{
  ℕ, zero, suc, ◌+◌, ◌-◌, ◌%◌, String, Bool, true, false, List, [], ◌∷◌, ◌++◌, if◌then◌else◌, ◌==◌,
  ltb, leb, length, drop,
}

pub record RingBuffer : Type 0 where
  pub buffer : ℕ → String
  pub capacity : ℕ
  pub head : ℕ
  pub count : ℕ

abbrev pub new_buffer : ℕ → RingBuffer
new_buffer capacity = record { buffer = λ i. ""; capacity = capacity; head = 0; count = 0 }

abbrev pub set : (ℕ → String) → ℕ → String → ℕ → String
set buffer i line j = if i == j then line else buffer j

unfoldable pub push : String → RingBuffer → RingBuffer
push line b = record {
  buffer = set b.buffer b.head line;
  capacity = b.capacity;
  head = (b.head + 1) % b.capacity;
  count = if ltb b.count b.capacity then b.count + 1 else b.count;
}

-- The `n` lines from a place on.
abbrev pub slice : (ℕ → String) → ℕ → ℕ → List String
slice buffer from zero = []
slice buffer from (suc n) = buffer from ∷ slice buffer (suc from) n

unfoldable pub to_array : RingBuffer → List String
to_array b =
    if ltb b.count b.capacity
    then slice b.buffer 0 b.count
    else slice b.buffer b.head (b.capacity - b.head) ++ slice b.buffer 0 b.head

unfoldable pub last : ℕ → RingBuffer → List String
unfolding to_array
last n b =
    let lines = to_array b in if leb (length lines) n then lines else drop (length lines - n) lines

unfoldable pub clear : RingBuffer → RingBuffer
clear b = record b { head = 0; count = 0 }
