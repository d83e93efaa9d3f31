-- ===== src/Examples/Mailbox.antt =====
-- The theorems on mailboxes, at small logs.
use roj.Base.{insert, remove, false, none, ◌<◌, ◌≡◌, refl, some, List, [], ◌∷◌, All, lookup}
use roj.Event.{EventBody, mailbox_message, mailbox_consumed, MailboxMessage}
use roj.Mailbox.{
  parse_sequence, reduce_mailbox, deliver, consume, highest_of, highest_in, empty_mailboxes,
  get_next_message_seq, get_agent_mailbox,
}
use roj.Mailbox.Sequence.{
  run_mailbox, run_box, number_of, get_next_message_seq-fresh, get_agent_mailbox-run_mailbox,
}

abbrev hello : MailboxMessage
hello = record {
  id = "m4";
  sender = "a1";
  content = "hello";
  timestamp = 5;
  consumed = false;
  answer_to = none;
  answer_value = none;
  attachments = none;
  context = none;
}

abbrev log : List EventBody
log = mailbox_message "a2" (some 3) hello ∷ mailbox_consumed "a2" ("m4" ∷ []) ∷ []

get_next_message_seq-fresh_example :
    All (λ b. number_of b < get_next_message_seq (run_mailbox log empty_mailboxes)) log
get_next_message_seq-fresh_example = get_next_message_seq-fresh log empty_mailboxes

get_agent_mailbox-run_mailbox_example :
    get_agent_mailbox (run_mailbox log empty_mailboxes) "a2"
    ≡ run_box "a2" log (get_agent_mailbox empty_mailboxes "a2")
get_agent_mailbox-run_mailbox_example = get_agent_mailbox-run_mailbox "a2" log empty_mailboxes

numbered : parse_sequence "m42" ≡ some 42
unfolding parse_sequence
numbered = refl

unnumbered : parse_sequence "m4x" ≡ none
unfolding parse_sequence
unnumbered = refl

next_after_consumed : get_next_message_seq (run_mailbox log empty_mailboxes) ≡ 5
unfolding get_next_message_seq run_mailbox reduce_mailbox parse_sequence deliver consume lookup
    insert remove highest_of highest_in
next_after_consumed = refl
