-- ===== src/Examples/Utilities.antt =====
-- The theorems on ports, ring buffers and semaphores, at small runs.
use roj.Base.{true, refl, none, ◌≡◌, String, false, some, List, [], ◌∷◌}
use roj.Sanitize.{before_tag, sanitize_llm_response}
use roj.Sanitize.Tags.{Begins}
use roj.Sanitize.Laws.{sanitize_llm_response-Begins}
use roj.Semaphore.{Call, enter, abort, leave, run_calls, idle_world, new}
use roj.Semaphore.Order.{Inv, run_calls-idle}

abbrev lines : List String
lines = "one" ∷ "two" ∷ "three" ∷ []

abbrev semaphore_calls : List Call
semaphore_calls = enter 1 false ∷ enter 2 false ∷ enter 3 false ∷ abort 2 ∷ leave 1 ∷ leave 3 ∷ []

run_calls-idle_example : Inv (run_calls semaphore_calls (idle_world (new 1)))
run_calls-idle_example = run_calls-idle semaphore_calls 1

sanitized_text : (sanitize_llm_response (some "Done. <message>hi</message>")).content ≡ some "Done."
unfolding sanitize_llm_response
sanitized_text = refl

waiting_text :
    sanitize_llm_response (some "Done.\n WAITING \nAnd then")
    ≡ record { content = some "Done.\n WAITING"; was_truncated = true }
unfolding sanitize_llm_response
waiting_text = refl

sanitize_llm_response-Begins_example :
    Begins "Done." "Done. <message>hi</message>" × (before_tag "Done." ≡ none)
sanitize_llm_response-Begins_example =
    sanitize_llm_response-Begins "Done. <message>hi</message>" "Done." sanitized_text
