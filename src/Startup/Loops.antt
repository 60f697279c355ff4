-- ===== src/Startup/Loops.antt =====
-- The loops of src/main.cpp that read commands, in main and in daemonize, with the handler of signals.
-- What poll finds, and the signals and requests to stop that arrive around it, are the rounds of a loop.
use buckey.Common.{
  ℕ, ◌+◌, Bool, true, false, not, ◌&&◌, Option, none, some, List, [], ◌∷◌, ◌++◌, if◌then◌else◌,
  String, str_eq,
}

pub data Signal : Type 0 where
  sighup sigquit sigtstp sigterm unknown_signal : Signal

-- What other threads and the system do: a signal, or requestStop by a command.
pub data Event : Type 0 where
  signals : Signal → Event
  quits : Event

-- The flags of Buckey, what has been passed on, and the count of reloads.
pub record Assistant : Type 0 where
  pub running : Bool
  pub killed : Bool
  pub inputs : List String
  pub commands : List String
  pub reloads : ℕ

-- requestStop sets killed and leaves running.
unfoldable pub request_stop : Assistant → Assistant
request_stop b = record b { killed = true }

unfoldable pub signal_handler : Signal → Assistant → Assistant
unfolding request_stop
signal_handler sighup b = record b { reloads = b.reloads + 1 }
signal_handler sigquit b = request_stop b
signal_handler sigtstp b = request_stop b
signal_handler sigterm b = request_stop b
signal_handler unknown_signal b = b

-- A daemon ignores SIGTSTP.
unfoldable pub arrive : (is_daemon : Bool) → Event → Assistant → Assistant
unfolding signal_handler request_stop
arrive true (signals sigtstp) b = b
arrive true (signals s) b = signal_handler s b
arrive false (signals s) b = signal_handler s b
arrive is_daemon quits b = request_stop b

unfoldable pub arrive_all : Bool → List Event → Assistant → Assistant
arrive_all is_daemon [] b = b
arrive_all is_daemon (e ∷ es) b = arrive_all is_daemon es (arrive is_daemon e b)

-- One turn: what arrives during poll, the line if there is one, and what arrives behind it.
pub record Turn : Type 0 where
  pub waiting : List Event
  pub line : Option String
  pub behind : List Event

-- A line is an input in the foreground and a command in a daemon; an empty one is nothing.
unfoldable pub pass_line : (is_daemon : Bool) → String → Assistant → Assistant
pass_line is_daemon s b =
    if str_eq s ""
    then b
    else if is_daemon
    then record b { commands = b.commands ++ s ∷ [] }
    else record b { inputs = b.inputs ++ s ∷ [] }

-- The tests of the loop and of the line that was read: main looks at killed, daemonize at running.
unfoldable pub goes_on : (is_daemon : Bool) → Assistant → Bool
goes_on true b = b.running
goes_on false b = not b.killed && b.running

unfoldable pub takes_line : (is_daemon : Bool) → Assistant → Bool
takes_line true b = b.running
takes_line false b = not b.killed

-- One pass of the body, and whether it breaks out of the loop.
unfoldable pub turn : Bool → Turn → Assistant → Assistant × Bool
unfolding takes_line pass_line
turn is_daemon t b =
    let now = arrive_all is_daemon t.waiting b in
    elim t.line [
      | none ↦ (arrive_all is_daemon t.behind now, false)
      | some s ↦
          if takes_line is_daemon now
          then (arrive_all is_daemon t.behind (pass_line is_daemon s now), false)
          else (now, true)
    ]

-- The loop over its turns, and whether it has ended.
unfoldable pub command_loop : Bool → List Turn → Assistant → Assistant × Bool
unfolding goes_on
command_loop is_daemon [] b = (b, not (goes_on is_daemon b))
command_loop is_daemon (t ∷ ts) b =
    let next = turn is_daemon t b in
    let rest = command_loop is_daemon ts next.0 in
    if goes_on is_daemon b then (if next.1 then next else rest) else (b, true)
