-- ===== src/Socket.antt =====
-- The UNIX socket of src/core/Buckey.cpp, Buckey::manageUnixSocket: how the bytes that recv returns
-- become commands and inputs. Texts are lists of bytes. What poll, accept and recv return, and the
-- flags killed and running as the loop reads them, are the events of a run.
pub mod Lines
pub mod Client
pub mod Wedge
mod Tests
use buckey.Common.{
  ℕ, zero, suc, ◌+◌, ◌-◌, ◌*◌, ◌/◌, ◌%◌, ◌^◌, ◌≤◌, ◌<◌, ◌≡◌, refl, sym, ap, ◌∙◌, subst, ◌≢◌, ◌↔◌,
  ◌⊎◌, inl, inr, Bool, true, false, not, ◌&&◌, ◌||◌, Option, none, some, List, [], ◌∷◌, ◌++◌, map,
  append-nil, append_assoc, arith, ltb, leb, ◌==◌, if◌then◌else◌, Bool-cases, Option-cases, length,
  get_elem?, set, take, drop, concat, length-append, drop-length-append, All, All-append,
}

-- MAX_COMMAND_SIZE of include/core/Buckey.h.
abbrev pub max_command_size : ℕ
max_command_size = 70

abbrev pub newline : ℕ
newline = 10

abbrev pub colon : ℕ
colon = 58

abbrev pub space : ℕ
space = 32

-- The calls that the loop makes on Buckey.
pub data Action : Type 0 where
  pass_command : List ℕ → Action
  pass_input : List ℕ → Action
  reply_too_large : Action

-- The local variables s, currentReadSize, an int by its value modulo 2 ^ 32, and gotLine.
pub record Reader : Type 0 where
  pub pending : List ℕ
  pub current_read_size : ℕ
  pub got_line : Bool

-- A complete line is a command if it begins with a colon, which a space replaces, else an input.
unfoldable pub deliver : List ℕ → List Action
deliver [] = []
deliver (c ∷ s) = if c == colon then pass_command (space ∷ s) ∷ [] else pass_input (c ∷ s) ∷ []

-- currentReadSize++, and the test against the limit: from 2 ^ 31 on the int is negative.
abbrev pub next_size : ℕ → ℕ
next_size n = (n + 1) % 2 ^ 32

abbrev pub is_too_large : ℕ → Bool
is_too_large n = ltb max_command_size n && ltb n (2 ^ 31)

-- The loop over the bytes of one recv; the break on a line that is too large leaves the loop.
unfoldable pub read_bytes : Reader → List ℕ → Reader × List Action
read_bytes r [] = (r, [])
read_bytes r (c ∷ cs) =
    let line = r.pending ++ c ∷ [] in
    let size = next_size r.current_read_size in
    let fresh = read_bytes (record { pending = []; current_read_size = 0; got_line = true }) cs in
    let longer = read_bytes (record r { pending = line; current_read_size = size }) cs in
    if is_too_large size
    then (record r { pending = line; current_read_size = size }, reply_too_large ∷ [])
    else if c == newline
    then (fresh.0, deliver line ++ fresh.1)
    else longer

-- What one non-blocking recv returns: nothing yet, an error, an end of the stream, or bytes.
pub data Received : Type 0 where
  would_block failed disconnected : Received
  bytes : List ℕ → Received

-- One round of the reading loop, with the flags that it reads.
pub record Round : Type 0 where
  pub killed : Bool
  pub running : Bool
  pub received : Received

-- How the reading loop was left; `waiting` is a loop that is still polling.
pub data Exit : Type 0 where
  waiting stopped gone : Exit

pub record Run : Type 0 where
  pub reader : Reader
  pub actions : List Action
  pub exit : Exit

-- The rest of a run goes on from the reader that the bytes of this round left.
abbrev continue : Run → List Action → Run
continue rest now = record rest { actions = now ++ rest.actions }

-- What a round does with the result of recv; `rest` is the loop from there on.
unfoldable pub read_round : Reader → Bool → (Reader → Run) → Received → Run
read_round r running rest would_block =
    if running then rest r else record { reader = r; actions = []; exit = gone }
read_round r running rest failed = record {
  reader = record r { got_line = false };
  actions = [];
  exit = gone;
}
read_round r running rest disconnected = record {
  reader = record r { got_line = false };
  actions = [];
  exit = gone;
}
read_round r running rest (bytes bs) = continue (rest (read_bytes r bs).0) (read_bytes r bs).1

-- The reading loop of one connection.
unfoldable pub read_connection : Reader → List Round → Run
unfolding read_round
read_connection r [] = record { reader = r; actions = []; exit = waiting }
read_connection r (round ∷ rounds) =
    let rest = λ (r' : Reader). read_connection r' rounds in
    if round.killed
    then record { reader = r; actions = []; exit = stopped }
    else read_round r round.running rest round.received

-- What one round of the outer loop sees: the killed flag, nothing to accept, a transient or a fatal
-- error of accept, or a connection with the rounds of its reading loop and the killed flag as it is
-- read behind that loop.
pub data Polled : Type 0 where
  poll_killed quiet accept_again accept_failed : Polled
  accepted : List Round → Bool → Polled

-- The thread: the count of bytes outlives a connection; `closed` counts the calls of close on a
-- client's handle, and `status` says whether the loop goes on, was left, or ended the process.
pub data Status : Type 0 where
  serving left exited : Status

pub record Server : Type 0 where
  pub current_read_size : ℕ
  pub socket_connected : Bool
  pub closed : ℕ
  pub status : Status

-- The reader of a new connection: s and gotLine are reset, currentReadSize is not.
abbrev pub open_reader : Server → Reader
open_reader v = record { pending = []; current_read_size = v.current_read_size; got_line = false }

-- What follows the reading loop: a killed thread leaves, one that got no line closes the handle.
abbrev finish : Server → Run → Bool → Server
finish v run killed = elim run.exit [
  | waiting ↦ record v { current_read_size = run.reader.current_read_size; socket_connected = true }
  | stopped ↦ record v {
    current_read_size = run.reader.current_read_size;
    socket_connected = true;
    status = left;
  }
  | gone ↦
      if killed
      then (record v {
        current_read_size = run.reader.current_read_size;
        socket_connected = true;
        status = left;
      })
      else (record v {
        current_read_size = run.reader.current_read_size;
        socket_connected = run.reader.got_line;
        closed = v.closed + (if run.reader.got_line then 0 else 1);
      })
]

unfoldable pub serve_polled : Server → Polled → Server × List Action
unfolding read_connection read_bytes deliver
serve_polled v poll_killed = (record v { status = left }, [])
serve_polled v quiet = (v, [])
serve_polled v accept_again = (v, [])
serve_polled v accept_failed = (record v { status = exited }, [])
serve_polled v (accepted rounds killed) =
    let run = read_connection (open_reader v) rounds in (finish v run killed, run.actions)

-- The outer loop goes on while it serves.
unfoldable pub then_serve :
    Status → Server × List Action → Server × List Action → Server × List Action
then_serve serving first rest = (rest.0, first.1 ++ rest.1)
then_serve left first rest = first
then_serve exited first rest = first

-- The outer loop, over what its rounds see.
unfoldable pub manage_unix_socket : Server → List Polled → Server × List Action
unfolding serve_polled then_serve
manage_unix_socket v [] = (v, [])
manage_unix_socket v (p ∷ ps) =
    let first = serve_polled v p in
    let rest = manage_unix_socket first.0 ps in then_serve first.0.status first rest
