-- ===== src/Socket/Tests.antt =====
-- Runs of the server's reading loop and of the client.
use buckey.Common.{
  ℕ, ◌+◌, ◌≤◌, ◌≡◌, refl, ◌⊎◌, true, false, Option, none, some, List, [], ◌∷◌, ◌++◌, map, arith,
  length,
}
use buckey.Socket.{
  Round, bytes, max_command_size, colon, newline, Reader, waiting, read_connection, accepted,
  Server, serving, serve_polled,
}
use buckey.Socket.Lines.{
  pieces, stream_of, count_after, deliver_all, split_lines, read_connection-eq-split_lines,
}
use buckey.Socket.Client.{
  send_command, send_command-cases, too_long, frame, client_session, lines_sent,
  client_session-delivered,
}

-- "hi" and ":go" with their newlines, in two pieces with waits.
abbrev hi : List ℕ
hi = 104 ∷ 105 ∷ []

abbrev go : List ℕ
go = 58 ∷ 103 ∷ 111 ∷ []

abbrev two_pieces : List (Option (List ℕ))
two_pieces = some (104 ∷ []) ∷ none ∷ some (105 ∷ 10 ∷ 58 ∷ 103 ∷ 111 ∷ 10 ∷ []) ∷ none ∷ []

abbrev fresh : Reader
fresh = record { pending = []; current_read_size = 0; got_line = false }

abbrev server : Server
server = record { current_read_size = 0; socket_connected = false; closed = 0; status = serving }

-- Seventy bytes without a newline.
abbrev seventy : List ℕ
seventy =
    let ten = 97 ∷ 97 ∷ 97 ∷ 97 ∷ 97 ∷ 97 ∷ 97 ∷ 97 ∷ 97 ∷ 97 ∷ [] in
    ten ++ (ten ++ (ten ++ (ten ++ (ten ++ (ten ++ ten)))))

abbrev hi_round : Round
hi_round = record { killed = false; running = true; received = bytes (hi ++ newline ∷ []) }

read_connection-eq-split_lines_example :
    ((read_connection fresh (pieces two_pieces)).actions
      ≡ deliver_all (split_lines [] (stream_of two_pieces)).1)
    × ((read_connection fresh (pieces two_pieces)).reader.pending
        ≡ (split_lines [] (stream_of two_pieces)).0)
    × ((read_connection fresh (pieces two_pieces)).reader.current_read_size
        ≡ count_after 0 (stream_of two_pieces))
    × ((read_connection fresh (pieces two_pieces)).exit ≡ waiting)
read_connection-eq-split_lines_example =
    read_connection-eq-split_lines fresh two_pieces (ground arith)

client_session-delivered_example :
    let (v', actions) = serve_polled server (accepted (pieces two_pieces) false) in
    (actions ≡ deliver_all (map (λ l. l ++ newline ∷ []) (lines_sent (hi ∷ go ∷ []))))
    × (v'.current_read_size ≡ 0)
    × (v'.socket_connected ≡ true)
unfolding client_session
client_session-delivered_example =
    client_session-delivered server (hi ∷ go ∷ []) two_pieces false refl (ground arith) refl

send_command-cases_example :
    ((max_command_size ≤ length hi + 1) × (send_command true hi ≡ too_long))
    ⊎ ((length (colon ∷ (hi ++ newline ∷ [])) ≤ max_command_size)
        × (send_command true hi ≡ frame (colon ∷ (hi ++ newline ∷ []))))
send_command-cases_example = send_command-cases hi (ground arith)
