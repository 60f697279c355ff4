-- ===== src/Socket/Lines.antt =====
-- The reading loop against a specification: lines are cut at newlines, however recv splits the
-- stream into pieces.
use buckey.Common.{
  ℕ, ◌+◌, ◌<◌, ◌≡◌, refl, sym, ap, ◌∙◌, ◌≢◌, true, false, Option, none, some, List, [], ◌∷◌, ◌++◌,
  map, append_assoc, arith, ◌==◌, if◌then◌else◌, length, All,
}
use buckey.Socket.{
  max_command_size, newline, next_size, Received, would_block, read_round, Action, Reader, deliver,
  read_bytes, bytes, Round, waiting, read_connection,
}

-- The specification: what is left over, and the complete lines with their newlines.
pub split_lines : List ℕ → List ℕ → List ℕ × List (List ℕ)
split_lines pending [] = (pending, [])
split_lines pending (c ∷ cs) =
    let line = pending ++ c ∷ [] in
    let fresh = split_lines [] cs in
    let longer = split_lines line cs in if c == newline then (fresh.0, line ∷ fresh.1) else longer

abbrev pub deliver_all : List (List ℕ) → List Action
deliver_all [] = []
deliver_all (l ∷ ls) = deliver l ++ deliver_all ls

-- The count of bytes that a newline sets back stays within the limit.
abbrev pub Fits : ℕ → List ℕ → Type 0
Fits n [] = Unit
Fits n (c ∷ cs) = (n < max_command_size) × Fits (if c == newline then 0 else n + 1) cs

unfoldable pub count_after : ℕ → List ℕ → ℕ
count_after n [] = n
count_after n (c ∷ cs) = count_after (if c == newline then 0 else n + 1) cs

deliver_all-append :
    (xs ys : List (List ℕ)) → deliver_all (xs ++ ys) ≡ deliver_all xs ++ deliver_all ys
deliver_all-append [] ys = refl
deliver_all-append (x ∷ xs) ys =
    rw (deliver_all-append xs ys) (sym (append_assoc (deliver x) (deliver_all xs) (deliver_all ys)))

-- Within the limit one piece is read as the specification says.
read_bytes_lem :
    (r : Reader) (cs : List ℕ)
    → Fits r.current_read_size cs
    → ((read_bytes r cs).0.pending ≡ (split_lines r.pending cs).0)
      × ((read_bytes r cs).1 ≡ deliver_all (split_lines r.pending cs).1)
      × ((read_bytes r cs).0.current_read_size ≡ count_after r.current_read_size cs)
unfolding read_bytes split_lines count_after
read_bytes_lem r [] h = (refl, refl, refl)
read_bytes_lem r (c ∷ cs) h = ground (
  arith,
  read_bytes_lem (record { pending = []; current_read_size = 0; got_line = true }) cs,
  read_bytes_lem
      (record r {
        pending = r.pending ++ c ∷ [];
        current_read_size = next_size r.current_read_size;
      })
      cs,
)

Fits-append : (n : ℕ) (xs ys : List ℕ) → Fits n (xs ++ ys) → Fits n xs × Fits (count_after n xs) ys
unfolding count_after
Fits-append n [] ys h = (tt, h)
Fits-append n (c ∷ cs) ys (h, hs) =
    let (a, b) = Fits-append (if c == newline then 0 else n + 1) cs ys hs in ((h, a), b)

count_after-append :
    (n : ℕ) (xs ys : List ℕ) → count_after n (xs ++ ys) ≡ count_after (count_after n xs) ys
unfolding count_after
count_after-append n [] ys = refl
count_after-append n (c ∷ xs) ys = count_after-append (if c == newline then 0 else n + 1) xs ys

split_lines-append :
    (p xs ys : List ℕ)
    → split_lines p (xs ++ ys) ≡ (
      (split_lines (split_lines p xs).0 ys).0,
      (split_lines p xs).1 ++ (split_lines (split_lines p xs).0 ys).1,
    )
unfolding split_lines
split_lines-append p [] ys = refl
split_lines-append p (c ∷ cs) ys =
    ground (arith, split_lines-append [] cs ys, split_lines-append (p ++ c ∷ []) cs ys)

-- Rounds that each bring a piece or find that nothing has come yet, with the program running.
abbrev pub received_as : Option (List ℕ) → Received
received_as none = would_block
received_as (some bs) = bytes bs

abbrev pub pieces : List (Option (List ℕ)) → List Round
pieces = map λ c. record { killed = false; running = true; received = received_as c }

-- The bytes that come in those rounds.
abbrev pub stream_of : List (Option (List ℕ)) → List ℕ
stream_of [] = []
stream_of (none ∷ chunks) = stream_of chunks
stream_of (some bs ∷ chunks) = bs ++ stream_of chunks

-- While the lines stay within the limit, what the reading loop does depends on the bytes alone and
-- not on how recv splits them into pieces, nor on how often and where it finds that nothing has come
-- yet: it delivers the lines that the specification cuts off, in order, keeps the rest, counts what it
-- keeps, and goes on waiting.
pub read_connection-eq-split_lines :
    (r : Reader) (chunks : List (Option (List ℕ)))
    → Fits r.current_read_size (stream_of chunks)
    → ((read_connection r (pieces chunks)).actions
        ≡ deliver_all (split_lines r.pending (stream_of chunks)).1)
      × ((read_connection r (pieces chunks)).reader.pending
          ≡ (split_lines r.pending (stream_of chunks)).0)
      × ((read_connection r (pieces chunks)).reader.current_read_size
          ≡ count_after r.current_read_size (stream_of chunks))
      × ((read_connection r (pieces chunks)).exit ≡ waiting)
unfolding read_connection read_round split_lines count_after
read_connection-eq-split_lines r [] h = (refl, refl, refl, refl)
read_connection-eq-split_lines r (none ∷ chunks) h = read_connection-eq-split_lines r chunks h
read_connection-eq-split_lines r (some bs ∷ chunks) h =
    let (now, later) = Fits-append r.current_read_size bs (stream_of chunks) h in
    let (left, done, size) = read_bytes_lem r bs now in
    let (acts, rest, count, exit) =
      read_connection-eq-split_lines (read_bytes r bs).0 chunks (rw size later) in
    (
      rw (split_lines-append r.pending bs (stream_of chunks))
          (rw (deliver_all-append (split_lines r.pending bs).1) (rw (acts, left, done))),
      rw (split_lines-append r.pending bs (stream_of chunks)) (rw (rest, left)),
      count
          ∙ ap (λ n. count_after n (stream_of chunks)) size
          ∙ sym (count_after-append r.current_read_size bs (stream_of chunks)),
      exit,
    )

abbrev pub NoNewline : List ℕ → Type 0
NoNewline = All (λ c. c ≢ newline)

-- A line of a client: no newline inside, and with its newline within the limit.
abbrev pub IsLine : List ℕ → Type 0
IsLine l = NoNewline l × (length l < max_command_size)

-- What a client sends for some lines, each with its newline.
abbrev pub stream : List (List ℕ) → List ℕ
stream [] = []
stream (l ∷ ls) = l ++ newline ∷ stream ls

split_lines-line :
    (p l rest : List ℕ)
    → NoNewline l
    → split_lines p (l ++ newline ∷ rest)
      ≡ ((split_lines [] rest).0, (p ++ (l ++ newline ∷ [])) ∷ (split_lines [] rest).1)
unfolding split_lines
split_lines-line p [] rest h = refl
split_lines-line p (c ∷ l) rest (h, hs) =
    ground
      (arith, split_lines-line (p ++ c ∷ []) l rest hs, append_assoc p (c ∷ []) (l ++ newline ∷ []))

split_lines-stream :
    (ls : List (List ℕ))
    → All IsLine ls
    → split_lines [] (stream ls) ≡ ([], map (λ l. l ++ newline ∷ []) ls)
unfolding split_lines
split_lines-stream [] h = refl
split_lines-stream (l ∷ ls) (h, hs) =
    rw (split_lines-line [] l (stream ls) h.0, split_lines-stream ls hs)

Fits-line :
    (n : ℕ) (l rest : List ℕ)
    → NoNewline l
    → n + length l < max_command_size
    → Fits 0 rest
    → Fits n (l ++ newline ∷ rest)
Fits-line n [] rest h b f = (omega arith, f)
Fits-line n (c ∷ l) rest (h, hs) b f =
    (omega arith, ground (arith, Fits-line (n + 1) l rest hs (omega arith) f))

Fits-stream : (ls : List (List ℕ)) → All IsLine ls → Fits 0 (stream ls)
Fits-stream [] h = tt
Fits-stream (l ∷ ls) (h, hs) =
    Fits-line 0 l (stream ls) h.0 (omega (arith, h.1)) (Fits-stream ls hs)

count_after-line :
    (n : ℕ) (l rest : List ℕ)
    → NoNewline l
    → count_after n (l ++ newline ∷ rest) ≡ count_after 0 rest
unfolding count_after
count_after-line n [] rest h = refl
count_after-line n (c ∷ l) rest (h, hs) = ground (arith, count_after-line (n + 1) l rest hs)

-- The lines leave no count behind.
count_after-stream : (ls : List (List ℕ)) → All IsLine ls → count_after 0 (stream ls) ≡ 0
unfolding count_after
count_after-stream [] h = refl
count_after-stream (l ∷ ls) (h, hs) =
    count_after-line 0 l (stream ls) h.0 ∙ count_after-stream ls hs

-- The lines that a client sends are delivered one by one and in order, in whatever pieces and with
-- whatever waits recv returns the stream, if no line has a newline inside and each is within the limit;
-- nothing is left.
pub read_connection-stream :
    (ls : List (List ℕ)) (chunks : List (Option (List ℕ))) (r : Reader)
    → r.pending ≡ []
    → r.current_read_size ≡ 0
    → All IsLine ls
    → stream_of chunks ≡ stream ls
    → ((read_connection r (pieces chunks)).actions ≡ deliver_all (map (λ l. l ++ newline ∷ []) ls))
      × ((read_connection r (pieces chunks)).reader.current_read_size ≡ 0)
      × ((read_connection r (pieces chunks)).exit ≡ waiting)
read_connection-stream ls chunks r p z h e =
    let (acts, rest, count, exit) =
      read_connection-eq-split_lines r chunks (rw (e, z) (Fits-stream ls h)) in
    let cut = split_lines-stream ls h in
    (
      acts
          ∙ ap (λ q. deliver_all (split_lines q (stream_of chunks)).1) p
          ∙ ap (λ t. deliver_all (split_lines [] t).1) e
          ∙ ap (λ c. deliver_all c.1) cut,
      count
          ∙ ap (λ n. count_after n (stream_of chunks)) z
          ∙ ap (count_after 0) e
          ∙ count_after-stream ls h,
      exit,
    )
