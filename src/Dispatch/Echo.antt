-- ===== src/Dispatch/Echo.antt =====
-- EchoMode::input of src/core/EchoMode.cpp with startConversation and endConversation of
-- src/core/Buckey.cpp, for a conversation that need not wait for another. The question that the prompt
-- asks is left out, as in the prompt.
use buckey.Common.{◌≡◌, ap, Bool, true, false, Option, none, some, List, [], ◌∷◌, ◌++◌, All, String}
use buckey.Dispatch.{Inbox, Look, PromptResult, timed_out, confirmed, answer, prompt_confirmation}
use buckey.Dispatch.Queue.{IsQuiet, prompt_confirmation-answers}

unfoldable pub start_conversation : Inbox → Inbox
start_conversation b = record b { in_conversation = true }

unfoldable pub end_conversation : Inbox → Inbox
end_conversation b = record b { in_conversation = false }

abbrev confirmation : Bool → String
confirmation true = "Confirmed"
confirmation false = "Denied"

-- The replies to a result of the prompt.
abbrev pub echo_replies : PromptResult → List String
echo_replies timed_out = "Result timed out" ∷ []
echo_replies (confirmed b) = "Result not timed out" ∷ confirmation b ∷ []

-- The replies so far and the inbox; the conversation goes on while the prompt waits.
unfoldable pub echo_input : Inbox → List Look → Inbox × List String
echo_input b looks =
    let (asked, result) = prompt_confirmation (start_conversation b) looks in
    elim result [
      | none ↦ (asked, "pong" ∷ [])
      | some r ↦ (end_conversation asked, "pong" ∷ echo_replies r)
    ]

-- The echo mode answers by the first input that comes in time, ends its conversation, and leaves the
-- inputs behind it in the queue, if the queue was empty and the program is not told to stop.
pub echo_input-answers :
    (b : Inbox) (quiet later : List Look) (s : String) (more : List String)
    → b.killed ≡ false
    → b.input_que ≡ []
    → All IsQuiet quiet
    → echo_input b (quiet ++ record { late = false; arrived = s ∷ more } ∷ later) ≡ (
      end_conversation (record (start_conversation b) { input_que = more }),
      "pong" ∷ echo_replies (answer s),
    )
unfolding echo_input start_conversation
echo_input-answers b quiet later s more k e h =
    ap
      (λ (p : Inbox × Option PromptResult). elim p.1 as (λ o. Inbox × List String) [
        | none ↦ (p.0, "pong" ∷ [])
        | some r ↦ (end_conversation p.0, "pong" ∷ echo_replies r)
      ])
      (prompt_confirmation-answers (start_conversation b) quiet later s more k e h)
