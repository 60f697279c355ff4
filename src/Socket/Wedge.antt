-- ===== src/Socket/Wedge.antt =====
-- What a line beyond the limit does to the reading loop, and to the connections after it.
use buckey.Common.{ℕ, ◌+◌, ◌^◌, ◌≤◌, ◌<◌, ◌≡◌, List, [], ◌∷◌, length, All}
use buckey.Socket.{
  max_command_size, Action, reply_too_large, Run, Polled, poll_killed, quiet, accept_again,
  accept_failed, accepted,
}

-- The count has reached the limit, and so many more reads do not take it past an int.
abbrev IsFull : ℕ → ℕ → Type 0
IsFull budget n = (max_command_size ≤ n) × (n + budget < 2 ^ 31)

-- How often recv is called.
abbrev pub reads : List Polled → ℕ
reads [] = 0
reads (accepted rounds killed ∷ ps) = length rounds + reads ps
reads (poll_killed ∷ ps) = reads ps
reads (quiet ∷ ps) = reads ps
reads (accept_again ∷ ps) = reads ps
reads (accept_failed ∷ ps) = reads ps

abbrev pub OnlyRefusals : List Action → Type 0
OnlyRefusals = All (λ a. a ≡ reply_too_large)

-- What holds of a run that began with a full count.
abbrev Refuses : ℕ → Run → Type 0
Refuses b run = OnlyRefusals run.actions × IsFull b run.reader.current_read_size
