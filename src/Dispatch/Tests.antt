-- ===== src/Dispatch/Tests.antt =====
-- Runs of the queue, of a prompt and of the dispatch.
use buckey.Common.{◌≡◌, refl, true, false, some, List, [], ◌∷◌}
use buckey.Registry.{started}
use buckey.Registry.Saved.{to_chars, of_chars}
use buckey.Registry.Samples.{modes, sample}
use buckey.Dispatch.{
  Inbox, answer, handed, pass_command, string_starts_with, chars_start_with, mode_name,
  find_started,
}
use buckey.Dispatch.Echo.{
  echo_input, echo_replies, start_conversation, end_conversation, echo_input-answers,
}
use buckey.Dispatch.Queue.{Event, arrives, watches, prompts, converses}
use buckey.Dispatch.Tags.{pass_command-first}

abbrev inbox : Inbox
inbox = record { input_que = []; in_conversation = false; killed = false }

-- Three inputs, of which a prompt takes one and the watcher one.
abbrev events : List Event
events =
    arrives "start"
    ∷ converses true
    ∷ watches
    ∷ prompts
    ∷ converses false
    ∷ arrives "go"
    ∷ watches
    ∷ arrives "stop"
    ∷ []

echo_input-answers_example :
    echo_input inbox (
      record { late = false; arrived = [] }
      ∷ record { late = false; arrived = "confirm" ∷ "next" ∷ [] }
      ∷ [])
    ≡ (
      end_conversation (record (start_conversation inbox) { input_que = "next" ∷ [] }),
      "pong" ∷ echo_replies (answer "confirm"),
    )
echo_input-answers_example =
    echo_input-answers inbox (record { late = false; arrived = [] } ∷ []) [] "confirm" ("next" ∷ [])
      refl refl (record { in_time = refl; nothing = refl }, tt)

pass_command-first_example :
    pass_command modes sample.modes (some ("quit" ∷ "-_buckey_mode_-core" ∷ []))
    ≡ handed ("core", started) ("quit" ∷ [])
unfolding string_starts_with chars_start_with to_chars of_chars mode_name find_started
pass_command-first_example =
    pass_command-first modes sample.modes ("quit" ∷ []) "-_buckey_mode_-core" [] ("core", started)
      (refl, tt) refl refl
