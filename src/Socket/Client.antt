-- ===== src/Socket/Client.antt =====
-- The client side in src/main.cpp: the command of -c and -i, and the command line that talks to a
-- running process; and both against the server's reading loop.
use buckey.Common.{
  ℕ, zero, suc, ◌+◌, ◌-◌, ◌≤◌, ◌<◌, ◌≡◌, refl, ap, ◌∙◌, ◌≢◌, ◌⊎◌, inl, inr, Bool, true, false, not,
  ◌&&◌, Option, List, [], ◌∷◌, ◌++◌, map, append_assoc, arith, ltb, ◌==◌, if◌then◌else◌, Bool-cases,
  length, take, length-append, All,
}
use buckey.Socket.{
  max_command_size, newline, colon, waiting, Run, read_connection, accepted, Server, open_reader,
  finish, serve_polled,
}
use buckey.Socket.Lines.{
  NoNewline, IsLine, stream, deliver_all, pieces, stream_of, read_connection-stream,
}

-- strncpy into a buffer of n bytes: up to a NUL, and then zeros.
pub strncpy : ℕ → List ℕ → List ℕ
strncpy zero s = []
strncpy (suc n) [] = 0 ∷ strncpy n []
strncpy (suc n) (c ∷ s) =
    let zeros = 0 ∷ strncpy n [] in let copied = c ∷ strncpy n s in if c == 0 then zeros else copied

-- Equality of texts, as std::string has it.
unfoldable pub same_text : List ℕ → List ℕ → Bool
same_text [] [] = true
same_text (c ∷ s) (d ∷ t) = (c == d) && same_text s t
same_text _ _ = false

-- "exit"
abbrev exit_word : List ℕ
exit_word = 101 ∷ 120 ∷ 105 ∷ 116 ∷ []

pub data Sending : Type 0 where
  nothing too_long : Sending
  frame : List ℕ → Sending

-- The command of -c (with a colon in front) or of -i: strncpy copies s.length() bytes.
unfoldable pub send_command : Bool → List ℕ → Sending
unfolding strncpy
send_command execute_command command =
    let s = if execute_command then colon ∷ command else command in
    let line = s ++ newline ∷ [] in
    if length s == 0
    then nothing
    else if ltb (max_command_size - 1) (length s)
    then too_long
    else frame (strncpy (length line) line)

-- The loop of the command line over the lines typed and whether send takes each: the bytes sent.
unfoldable pub client_session : List (List ℕ × Bool) → List ℕ
unfolding strncpy same_text
client_session [] = []
client_session ((s, sends) ∷ typed) =
    let later = client_session typed in
    let line = s ++ newline ∷ [] in
    if length s == 0
    then later
    else if ltb (max_command_size - 1) (length s)
    then later
    else if same_text s exit_word
    then []
    else if sends
    then take (length line) (strncpy max_command_size line) ++ later
    else []

pub length-strncpy : (n : ℕ) (s : List ℕ) → length (strncpy n s) ≡ n
unfolding strncpy
length-strncpy zero s = refl
length-strncpy (suc n) [] = ground (arith, length-strncpy n [])
length-strncpy (suc n) (c ∷ s) = ground (arith, length-strncpy n [], length-strncpy n s)

abbrev pub NoNul : List ℕ → Type 0
NoNul = All (λ c. c ≢ 0)

strncpy-NoNul : (s : List ℕ) → NoNul s → strncpy (length s) s ≡ s
unfolding strncpy
strncpy-NoNul [] h = refl
strncpy-NoNul (c ∷ s) (h, hs) = ground (arith, strncpy-NoNul s hs)

pub take-strncpy : (n : ℕ) (s : List ℕ) → NoNul s → length s ≤ n → take (length s) (strncpy n s) ≡ s
unfolding strncpy
take-strncpy n [] h b = refl
take-strncpy zero (c ∷ s) h b = absurd (omega arith)
take-strncpy (suc n) (c ∷ s) (h, hs) b = ground (arith, take-strncpy n s hs (omega arith))

NoNul-line : (s : List ℕ) → NoNul s → NoNul (s ++ newline ∷ [])
NoNul-line [] h = (omega arith, tt)
NoNul-line (c ∷ s) (h, hs) = (h, NoNul-line s hs)

-- A command given to -c, with no NUL inside, is refused when with its colon it is longer than 69
-- bytes, and otherwise what is sent is the colon, the command and a newline, which is at most
-- MAX_COMMAND_SIZE bytes.
pub send_command-cases :
    (command : List ℕ)
    → NoNul command
    → ((max_command_size ≤ length command + 1) × (send_command true command ≡ too_long))
      ⊎ ((length (colon ∷ (command ++ newline ∷ [])) ≤ max_command_size)
          × (send_command true command ≡ frame (colon ∷ (command ++ newline ∷ []))))
unfolding send_command
send_command-cases command h = ground (
  arith,
  length-append command (newline ∷ []),
  strncpy-NoNul (colon ∷ (command ++ newline ∷ [])) (omega arith, NoNul-line command h),
)

-- The typed lines that the loop sends, up to "exit": nonempty, and of at most 69 bytes.
abbrev sendable : List ℕ → Bool
sendable s = not (length s == 0) && not (ltb (max_command_size - 1) (length s))

unfoldable pub lines_sent : List (List ℕ) → List (List ℕ)
unfolding same_text
lines_sent [] = []
lines_sent (s ∷ typed) =
    let later = lines_sent typed in
    let here = s ∷ later in
    if sendable s then (if same_text s exit_word then [] else here) else later

abbrev pub IsTyped : List ℕ → Type 0
IsTyped s = NoNewline s × NoNul s

abbrev pub all_sent : List (List ℕ) → List (List ℕ × Bool)
all_sent = map λ s. (s, true)

lines_sent-IsLine : (typed : List (List ℕ)) → All IsTyped typed → All IsLine (lines_sent typed)
unfolding lines_sent
lines_sent-IsLine [] h = tt
lines_sent-IsLine (s ∷ typed) (h, hs) = ground (arith, lines_sent-IsLine typed hs)

sent_line :
    (s : List ℕ)
    → NoNul s
    → length s < max_command_size
    → take (length (s ++ newline ∷ [])) (strncpy max_command_size (s ++ newline ∷ []))
      ≡ s ++ newline ∷ []
sent_line s h b =
    take-strncpy max_command_size (s ++ newline ∷ []) (NoNul-line s h)
      (omega (arith, length-append s (newline ∷ [])))

client_session-stream :
    (typed : List (List ℕ))
    → All IsTyped typed
    → client_session (all_sent typed) ≡ stream (lines_sent typed)
unfolding client_session lines_sent
client_session-stream [] h = refl
client_session-stream (s ∷ typed) ((_, h), hs) =
    let ih = client_session-stream typed hs in
    elim (Bool-cases (length s == 0)) [
      | inl z ↦ rw (z, client_session, lines_sent) ih
      | inr z ↦ elim (Bool-cases (ltb (max_command_size - 1) (length s))) [
        | inl q ↦ rw (z, q) ih
        | inr q ↦ elim (Bool-cases (same_text s exit_word)) [
          | inl x ↦ rw (z, q, x) refl
          | inr x ↦
              rw (z, q, x, sent_line s h (ground arith), ih)
                (append_assoc s (newline ∷ []) (stream (lines_sent typed)))
        ]
      ]
    ]

finish-waiting :
    (v : Server) (run : Run) (killed : Bool)
    → run.exit ≡ waiting
    → finish v run killed
      ≡ record v { current_read_size = run.reader.current_read_size; socket_connected = true }
finish-waiting v run killed e = rw e refl

-- From the client's keyboard to the modes: the lines typed before "exit" that are not refused
-- arrive one by one and in order, in whatever pieces and with whatever waits between them recv returns
-- what was sent. The lines typed have no newline and no NUL inside, send takes each of them, and the
-- count of the server, which outlives connections, is 0 at the start; then it is 0 again behind them,
-- and the connection is still open.
pub client_session-delivered :
    (v : Server) (typed : List (List ℕ)) (chunks : List (Option (List ℕ))) (killed : Bool)
    → v.current_read_size ≡ 0
    → All IsTyped typed
    → stream_of chunks ≡ client_session (all_sent typed)
    → let (v', actions) = serve_polled v (accepted (pieces chunks) killed) in
      (actions ≡ deliver_all (map (λ l. l ++ newline ∷ []) (lines_sent typed)))
      × (v'.current_read_size ≡ 0)
      × (v'.socket_connected ≡ true)
unfolding serve_polled
client_session-delivered v typed chunks killed z h e =
    let run = read_connection (open_reader v) (pieces chunks) in
    let (acts, count, exit) =
      read_connection-stream (lines_sent typed) chunks (open_reader v) refl z
        (lines_sent-IsLine typed h) (e ∙ client_session-stream typed h) in
    (
      acts,
      ap (λ (t : Server). t.current_read_size) (finish-waiting v run killed exit) ∙ count,
      ap (λ (t : Server). t.socket_connected) (finish-waiting v run killed exit),
    )
