-- ===== src/RingBuffer/Lines.antt =====
-- A ring buffer holds the last lines that were pushed.
use native.Mathlib.Nat.{mod-lt}
use roj.Base.{
  leb→le, append-nil, length-drop, lt→ltb, ltb→lt, length-append, ℕ, zero, suc, ◌+◌, ◌-◌, ◌≤◌, ◌<◌,
  ◌≡◌, ==_iff, refl, sym, ap, ◌∙◌, String, false, List, [], ◌∷◌, ◌++◌, if◌then◌else◌, ◌==◌, ltb,
  leb, length, drop, arith, append_assoc, Bool-cases, inl, inr,
}
use roj.Store.Paging.{drop-drop}
use roj.RingBuffer.{RingBuffer, new_buffer, set, push, slice, to_array, last}
use roj.RingBuffer.Slices.{next, slice-push, length-slice, wrapped, rotated}

pub record IsRing (b : RingBuffer) : Type 0 where
  pub some_room : 0 < b.capacity
  pub below : b.head < b.capacity
  pub counted : b.count ≤ b.capacity
  pub in_step : b.count < b.capacity → b.head ≡ b.count

-- What a push does to the lines.
abbrev pub push_line : ℕ → String → List String → List String
push_line capacity line lines =
    if ltb (length lines) capacity then lines ++ (line ∷ []) else drop 1 lines ++ (line ∷ [])

to_array_filling : (b : RingBuffer) → b.count < b.capacity → to_array b ≡ slice b.buffer 0 b.count
unfolding to_array
to_array_filling b h = rw (to_array, lt→ltb b.count b.capacity h) refl

to_array_full :
    (b : RingBuffer)
    → b.count ≡ b.capacity
    → to_array b ≡ slice b.buffer b.head (b.capacity - b.head) ++ slice b.buffer 0 b.head
unfolding to_array
to_array_full b h =
    let no : ltb b.count b.capacity ≡ false = ground (arith, h) in rw (to_array, no) refl

length-to_array : (b : RingBuffer) → IsRing b → length (to_array b) ≡ b.count
length-to_array b h = elim (Bool-cases (ltb b.count b.capacity)) [
  | inl e ↦ rw (to_array_filling b (ltb→lt _ _ e)) (length-slice b.buffer 0 b.count)
  | inr e ↦
      let full : b.count ≡ b.capacity = (let le = h.counted in ground (arith, e, le)) in
      let below = h.below in
      rw
        (
          to_array_full b full,
          length-append (slice b.buffer b.head (b.capacity - b.head)) (slice b.buffer 0 b.head),
          length-slice b.buffer b.head (b.capacity - b.head),
          length-slice b.buffer 0 b.head,
        )
        (omega arith)
]

-- The place and the count after a push.
head_after :
    (line : String) (b : RingBuffer) → IsRing b → (push line b).head ≡ wrapped b.head b.capacity
unfolding push
head_after line b h = next b.head b.capacity h.below

module _ (line : String) (b : RingBuffer) (h : IsRing b) where
  count_filling : b.count < b.capacity → (push line b).count ≡ suc b.count
  unfolding push
  count_filling e = ground (arith, e)

  count_full : b.count ≡ b.capacity → (push line b).count ≡ b.capacity
  unfolding push
  count_full e = ground (arith, e)

  filled : b.count < b.capacity → to_array (push line b) ≡ slice b.buffer 0 b.count ++ (line ∷ [])
  unfolding push
  filled e =
      let same = h.in_step e in
      let size = count_filling e in
      let written = slice-push b.buffer b.count line in
      elim (Bool-cases (suc b.head == b.capacity)) [
        | inl full ↦
            let end = (==_iff (suc b.head) b.capacity).0 full in
            let zero_head : (push line b).head ≡ 0 =
              head_after line b h ∙ rw (wrapped, full) refl in
            let all_of : b.capacity - 0 ≡ suc b.count = omega arith in
            to_array_full (push line b) (omega arith)
            ∙ ap
                (λ k.
                  slice (set b.buffer b.head line) k (b.capacity - k)
                  ++ slice (set b.buffer b.head line) 0 k)
                zero_head
            ∙ append-nil (slice (set b.buffer b.head line) 0 (b.capacity - 0))
            ∙ ap (slice (set b.buffer b.head line) 0) all_of
            ∙ ap (λ k. slice (set b.buffer k line) 0 (suc b.count)) same
            ∙ written
        | inr more ↦
            let less : (push line b).count < (push line b).capacity =
              ground (arith, more, same, size, e) in
            to_array_filling (push line b) less
            ∙ ap (slice (set b.buffer b.head line) 0) size
            ∙ ap (λ k. slice (set b.buffer k line) 0 (suc b.count)) same
            ∙ written
      ]

  turned :
      b.count ≡ b.capacity
      → to_array (push line b)
        ≡ drop 1 (slice b.buffer b.head (b.capacity - b.head) ++ slice b.buffer 0 b.head)
          ++ (line ∷ [])
  unfolding push
  turned e =
      to_array_full (push line b) (count_full e)
      ∙ ap
          (λ k.
            slice (set b.buffer b.head line) k (b.capacity - k)
            ++ slice (set b.buffer b.head line) 0 k)
          (head_after line b h)
      ∙ rotated b.buffer b.head b.capacity line h.below

  push-IsRing : IsRing (push line b)
  unfolding push
  push-IsRing =
      let room = h.some_room in
      let below = h.below in
      let counted = h.counted in
      record {
        some_room = room;
        below = mod-lt (b.head + 1) room;
        counted = ground arith;
        in_step = λ less.
            let old : b.count < b.capacity = ground (arith, less, counted) in
            let same = h.in_step old in
            let size = count_filling old in
            let more : (suc b.head == b.capacity) ≡ false = ground (arith, less, same, size) in
            let there : wrapped b.head b.capacity ≡ suc b.head = rw (wrapped, more) refl in
            head_after line b h ∙ omega (arith, there, same, size);
      }

  to_array-push : to_array (push line b) ≡ push_line b.capacity line (to_array b)
  to_array-push = elim (Bool-cases (ltb b.count b.capacity)) [
    | inl e ↦
        let less = ltb→lt b.count b.capacity e in
        filled less
        ∙ rw (to_array_filling b less, push_line, length-slice b.buffer 0 b.count, e) refl
    | inr e ↦
        let full : b.count ≡ b.capacity = (let le = h.counted in ground (arith, e, le)) in
        let long : ltb (length (to_array b)) b.capacity ≡ false = rw (length-to_array b h) e in
        turned full ∙ rw (push_line, long, to_array_full b full) refl
  ]

unfoldable pub push_all : List String → RingBuffer → RingBuffer
push_all [] b = b
push_all (line ∷ lines) b = push_all lines (push line b)

-- The last `n` elements of a list.
abbrev pub tail_of : ℕ → List String → List String
tail_of n lines = drop (length lines - n) lines

drop-append : (k : ℕ) (xs ys : List String) → k ≤ length xs → drop k (xs ++ ys) ≡ drop k xs ++ ys
drop-append zero xs ys h = refl
drop-append (suc k) [] ys h = absurd (omega arith)
drop-append (suc k) (x ∷ xs) ys h = drop-append k xs ys (omega arith)

push_line-tail_of :
    (capacity : ℕ) (line : String) (lines : List String)
    → 0 < capacity
    → push_line capacity line (tail_of capacity lines) ≡ tail_of capacity (lines ++ (line ∷ []))
push_line-tail_of capacity line lines h =
    let n = length lines in
    let long = length-append lines (line ∷ []) in
    let kept = length-drop (n - capacity) lines in
    elim (Bool-cases (ltb n capacity)) [
      | inl e ↦
          let small = ltb→lt n capacity e in
          let none_cut : n - capacity ≡ 0 = omega arith in
          let none_later : length (lines ++ (line ∷ [])) - capacity ≡ 0 = omega arith in
          rw (none_cut, none_later, e) refl
      | inr e ↦
          let no : ltb (length (drop (n - capacity) lines)) capacity ≡ false =
            ground (arith, kept, e) in
          let one_more : length (lines ++ (line ∷ [])) - capacity ≡ (n - capacity) + 1 =
            ground (arith, long, e) in
          rw (push_line, no, one_more)
            (ap (λ l. l ++ (line ∷ [])) (drop-drop 1 (n - capacity) lines)
              ∙ sym (drop-append ((n - capacity) + 1) lines (line ∷ []) (ground (arith, h, e))))
    ]

capacity-push_all :
    (lines : List String) (b : RingBuffer) → (push_all lines b).capacity ≡ b.capacity
unfolding push_all push
capacity-push_all [] b = refl
capacity-push_all (line ∷ lines) b = capacity-push_all lines (push line b)

to_array-push_all :
    (lines before : List String) (b : RingBuffer)
    → IsRing b
    → to_array b ≡ tail_of b.capacity before
    → to_array (push_all lines b) ≡ tail_of b.capacity (before ++ lines)
unfolding push_all push
to_array-push_all [] before b h e = e ∙ ap (tail_of b.capacity) (sym (append-nil before))
to_array-push_all (line ∷ lines) before b h e =
    let now =
      to_array-push line b h
      ∙ ap (push_line b.capacity line) e
      ∙ push_line-tail_of b.capacity line before h.some_room in
    to_array-push_all lines (before ++ (line ∷ [])) (push line b) (push-IsRing line b h) now
    ∙ ap (tail_of b.capacity) (append_assoc before (line ∷ []) lines)

last_lem : (n : ℕ) (b : RingBuffer) → last n b ≡ tail_of n (to_array b)
unfolding last
last_lem n b = elim (Bool-cases (leb (length (to_array b)) n)) [
  | inl e ↦
      let nothing : length (to_array b) - n ≡ 0 =
        (let le = leb→le (length (to_array b)) n e in omega (arith, le)) in
      rw (last, e, nothing) refl
  | inr e ↦ rw (last, e) refl
]

-- A buffer of a capacity above 0 holds, after any pushes, the lines that were pushed last, oldest
-- first, as many as the capacity allows; `last` gives the last `n` of those.
pub last-push_all :
    (capacity n : ℕ) (lines : List String)
    → 0 < capacity
    → (to_array (push_all lines (new_buffer capacity)) ≡ tail_of capacity lines)
      × (last n (push_all lines (new_buffer capacity)) ≡ tail_of n (tail_of capacity lines))
last-push_all capacity n lines h =
    let b = new_buffer capacity in
    let cut : 0 - capacity ≡ 0 = omega arith in
    let start : to_array b ≡ tail_of capacity [] = to_array_filling b h ∙ rw cut refl in
    let ring : IsRing b = record {
      some_room = h;
      below = h;
      counted = omega arith;
      in_step = λ q. refl;
    } in
    let held = to_array-push_all lines [] b ring start in
    (held, last_lem n (push_all lines b) ∙ ap (tail_of n) held)
