-- ===== src/Mailbox/Sequence.antt =====
-- Mailboxes and sequence numbers over a log.
use roj.Base.{
  ℕ, ◌≤◌, ◌<◌, max, ◌≡◌, refl, ap, ◌∙◌, String, List, [], ◌∷◌, ◌++◌, if◌then◌else◌, ◌=ₛ◌, All, Dict,
  lookup, lookup-insert, lookup-remove, or_zero, get_or, arith, Option-cases, inl, inr, eq_iff,
}
use roj.Event.{EventBody, mailbox_message, mailbox_consumed, MailboxMessage}
use roj.Mailbox.{
  MailboxState, parse_sequence, deliver, remaining, put_or_delete, consume, reduce_mailbox,
  get_agent_mailbox, highest_in, highest_of, get_next_message_seq,
}

unfoldable pub run_mailbox : List EventBody → MailboxState → MailboxState
run_mailbox [] s = s
run_mailbox (body ∷ log) s = run_mailbox log (reduce_mailbox body s)

-- The number that a message event carries, in its field or in the id of the message.
abbrev pub number_of : EventBody → ℕ
number_of (mailbox_message to sequence m) = max (or_zero sequence) (or_zero (parse_sequence m.id))
number_of _ = 0

mark : MailboxState → ℕ
mark s = or_zero s.message_sequence

mark-consume :
    (id : String) (ids : List String) (s : MailboxState) → mark (consume id ids s) ≡ mark s
unfolding mark consume
mark-consume id ids s = ground arith

mark-reduce_mailbox :
    (body : EventBody) (s : MailboxState)
    → (mark s ≤ mark (reduce_mailbox body s)) × (number_of body ≤ mark (reduce_mailbox body s))
unfolding mark reduce_mailbox deliver
mark-reduce_mailbox (mailbox_message to sequence m) s = (ground arith, ground arith)
mark-reduce_mailbox (mailbox_consumed id ids) s =
    let e = mark-consume id ids s in (ground (arith, e), omega arith)
mark-reduce_mailbox _ s = (omega arith, omega arith)

mark-run_mailbox :
    (log : List EventBody) (s : MailboxState)
    → (mark s ≤ mark (run_mailbox log s)) × All (λ b. number_of b ≤ mark (run_mailbox log s)) log
unfolding run_mailbox
mark-run_mailbox [] s = (omega arith, tt)
mark-run_mailbox (body ∷ log) s =
    let now = mark-reduce_mailbox body s in
    let later = mark-run_mailbox log (reduce_mailbox body s) in
    (omega (arith, now.0, later.0), (omega (arith, now.1, later.0), later.1))

highest_in_le : (h : ℕ) (ms : List MailboxMessage) → h ≤ highest_in h ms
unfolding highest_in
highest_in_le h [] = omega arith
highest_in_le h (m ∷ ms) =
    let rest = highest_in_le (max h (or_zero (parse_sequence m.id))) ms in omega (arith, rest)

highest_of_le : (h : ℕ) (boxes : Dict (List MailboxMessage)) → h ≤ highest_of h boxes
unfolding highest_of
highest_of_le h [] = omega arith
highest_of_le h ((id, ms) ∷ boxes) =
    omega (arith, highest_in_le h ms, highest_of_le (highest_in h ms) boxes)

All-below :
    {n k : ℕ} (log : List EventBody)
    → n < k
    → All (λ b. number_of b ≤ n) log
    → All (λ b. number_of b < k) log
All-below [] p h = tt
All-below (b ∷ log) p h = (let q = h.0 in omega arith, All-below log p h.1)

-- After any log, from any state, the next sequence number is above every number that a message
-- event of the log carried, in its field or in its id: also when the message was consumed since.
pub get_next_message_seq-fresh :
    (log : List EventBody) (s : MailboxState)
    → All (λ b. number_of b < get_next_message_seq (run_mailbox log s)) log
unfolding get_next_message_seq mark
get_next_message_seq-fresh log s =
    let t = run_mailbox log s in
    let top = highest_of_le (or_zero t.message_sequence) t.agent_mailboxes in
    All-below log (omega (arith, top)) (mark-run_mailbox log s).1

-- One agent's mailbox alone.
abbrev pub box_after : String → EventBody → List MailboxMessage → List MailboxMessage
box_after b (mailbox_message to sequence m) box = if to =ₛ b then box ++ (m ∷ []) else box
box_after b (mailbox_consumed id ids) box = if id =ₛ b then remaining ids box else box
box_after b _ box = box

unfoldable pub run_box : String → List EventBody → List MailboxMessage → List MailboxMessage
run_box b [] box = box
run_box b (body ∷ log) box = run_box b log (box_after b body box)

lookup-put_or_delete :
    (b id : String) (box : List MailboxMessage) (boxes : Dict (List MailboxMessage))
    → get_or (lookup b (put_or_delete id box boxes)) []
      ≡ (if id =ₛ b then box else get_or (lookup b boxes) [])
lookup-put_or_delete b id [] boxes = rw (lookup-remove id b boxes) (ground arith)
lookup-put_or_delete b id (m ∷ ms) boxes = rw (lookup-insert id b (m ∷ ms) boxes) (ground arith)

get_agent_mailbox-reduce_mailbox :
    (b : String) (body : EventBody) (s : MailboxState)
    → get_agent_mailbox (reduce_mailbox body s) b ≡ box_after b body (get_agent_mailbox s b)
unfolding get_agent_mailbox reduce_mailbox deliver consume
get_agent_mailbox-reduce_mailbox b (mailbox_message to sequence m) s =
    let stored =
      lookup-insert to b (get_or (lookup to s.agent_mailboxes) [] ++ (m ∷ [])) s.agent_mailboxes in
    rw stored (ground (arith, eq_iff to b))
get_agent_mailbox-reduce_mailbox b (mailbox_consumed id ids) s =
    elim (Option-cases (lookup id s.agent_mailboxes)) [
      | inl n ↦ rw (consume, n) (ground (arith, eq_iff id b, n))
      | inr (box, n) ↦
          rw (consume, n)
            (lookup-put_or_delete b id (remaining ids box) s.agent_mailboxes
              ∙ ground (arith, eq_iff id b, n))
    ]
get_agent_mailbox-reduce_mailbox b _ s = refl

-- Over any log, an agent's mailbox gains each message that is sent to it, at the end, and loses
-- those that are consumed from it; nothing that happens to another agent's mailbox touches it.
pub get_agent_mailbox-run_mailbox :
    (b : String) (log : List EventBody) (s : MailboxState)
    → get_agent_mailbox (run_mailbox log s) b ≡ run_box b log (get_agent_mailbox s b)
unfolding run_mailbox run_box
get_agent_mailbox-run_mailbox b [] s = refl
get_agent_mailbox-run_mailbox b (body ∷ log) s =
    get_agent_mailbox-run_mailbox b log (reduce_mailbox body s)
    ∙ ap (run_box b log) (get_agent_mailbox-reduce_mailbox b body s)
