-- ===== src/Ipc.antt =====
-- The control socket of src/ctl/ipc.cpp. The system's calls are arguments: what each call of `recv`,
-- `send` and `accept` returns, in order. A list that has run out is a call that does not return.
pub mod Transfer
mod Runs
use bitchat_clone.Base.{
  ℕ, suc, ◌-◌, ◌≤◌, Bool, true, false, not, ◌&&◌, ◌||◌, List, [], ◌∷◌, ◌++◌, Option, none, some,
  if◌then◌else◌, leb, ◌==◌, length, take, drop, min,
}
use bitchat_clone.Text.{codes, str_eq, starts_with}

-- `bytes` is `n > 0`, with the bytes that are appended; `end_of_file` is 0.
pub data Recv : Type 0 where
  bytes : List ℕ → Recv
  end_of_file : Recv
  recv_interrupted : Recv
  recv_failed : Recv

pub data Reading : Type 0 where
  got : List ℕ → Reading
  broken : Reading
  waiting : Reading

abbrev pub has_newline : List ℕ → Bool
has_newline [] = false
has_newline (c ∷ cs) = (c == 10) || has_newline cs

-- The inner loop of `start_server`.
unfoldable pub read_line : List ℕ → List Recv → Reading
read_line line [] = waiting
read_line line (bytes b ∷ rest) =
    let next = read_line (line ++ b) rest in
    if has_newline (line ++ b) then got (line ++ b) else next
read_line line (end_of_file ∷ rest) = got line
read_line line (recv_interrupted ∷ rest) = read_line line rest
read_line line (recv_failed ∷ rest) = broken

-- `line.substr(0, pos)` for the first newline, or the whole of it.
abbrev pub up_to_newline : List ℕ → List ℕ
up_to_newline [] = []
up_to_newline (c ∷ cs) = if c == 10 then [] else c ∷ up_to_newline cs

abbrev pub strip_cr : List ℕ → List ℕ
strip_cr [] = []
strip_cr (c ∷ []) = if c == 13 then [] else c ∷ []
strip_cr (c ∷ d ∷ rest) = c ∷ strip_cr (d ∷ rest)

-- The line that `on_line` is called with, for what was read.
abbrev pub first_line : List ℕ → List ℕ
first_line line = strip_cr (up_to_newline line)

pub data Accept : Type 0 where
  connection : List Recv → Accept
  accept_interrupted : Accept
  accept_failed : Accept

-- `closed` is `return true`, `gave_up` is `return false`, `serving` still waits.
pub data Served : Type 0 where
  closed : Served
  gave_up : Served
  serving : Served

abbrev pub after_line : List ℕ → List (List ℕ) × Served → List (List ℕ) × Served
after_line line (lines, how) = (line ∷ lines, how)

-- What follows the inner loop; the last argument is the rest of the outer loop.
abbrev pub on_read : Reading → List (List ℕ) × Served → List (List ℕ) × Served
on_read (got line) rest =
    if str_eq (first_line line) (codes "QUIT")
    then (first_line line ∷ [], closed)
    else after_line (first_line line) rest
on_read broken rest = rest
on_read waiting rest = ([], serving)

-- The lines that `on_line` is called with, in order, and how the outer loop ends.
unfoldable pub serve : List Accept → List (List ℕ) × Served
serve [] = ([], serving)
serve (accept_interrupted ∷ rest) = serve rest
serve (accept_failed ∷ rest) = ([], gave_up)
serve (connection recvs ∷ rest) = on_read (read_line [] recvs) (serve rest)

-- What the calls before the loop answer, in order.
pub record Setup : Type 0 where
  pub parent_dir : Bool
  pub socket : Bool
  pub bind : Bool
  pub listen : Bool

-- sizeof(sockaddr_un::sun_path)
abbrev pub sun_path_size : ℕ
sun_path_size = 108

abbrev pub is_empty : List ℕ → Bool
is_empty [] = true
is_empty (c ∷ cs) = false

unfoldable pub start_server : List ℕ → Setup → List Accept → List (List ℕ) × Served
start_server path setup calls =
    if is_empty path
      || leb sun_path_size (length path)
      || not setup.parent_dir
      || not setup.socket
      || not setup.bind
      || not setup.listen
    then ([], gave_up)
    else serve calls

-- `wrote n` is a call that takes `n` bytes, at most those it was offered; 0 ends the loop with an
-- error, unless `errno` says that the call was interrupted.
pub data Sent : Type 0 where
  wrote : ℕ → Sent
  send_interrupted : Sent
  send_failed : Sent

pub data Sending : Type 0 where
  all_sent : Sending
  send_error : Sending
  blocked : Sending

abbrev pub and_wrote : List ℕ → List ℕ × Sending → List ℕ × Sending
and_wrote front (w, how) = (front ++ w, how)

-- The loop of `send_line` on the bytes that are left: what goes out, and how it ends.
unfoldable pub send_loop : List ℕ → List Sent → List ℕ × Sending
send_loop [] calls = ([], all_sent)
send_loop (c ∷ cs) [] = ([], blocked)
send_loop (c ∷ cs) (wrote n ∷ rest) =
    let left = and_wrote (take n (c ∷ cs)) (send_loop (drop n (c ∷ cs)) rest) in
    if n == 0 then ([], send_error) else left
send_loop (c ∷ cs) (send_interrupted ∷ rest) = send_loop (c ∷ cs) rest
send_loop (c ∷ cs) (send_failed ∷ rest) = ([], send_error)

unfoldable pub send_line : List ℕ → List ℕ → Bool → Bool → List Sent → List ℕ × Sending
send_line path line socket connect calls =
    if is_empty line
      || is_empty path
      || leb sun_path_size (length path)
      || not socket
      || not connect
    then ([], send_error)
    else send_loop line calls

-- The first argument is the value of HOME.
unfoldable pub expand_user : Option (List ℕ) → List ℕ → List ℕ
expand_user (some (h ∷ hs)) (c ∷ []) = if c == b'~' then h ∷ hs else c ∷ []
expand_user (some (h ∷ hs)) (c ∷ d ∷ rest) =
    if (c == b'~') && (d == b'/') then (h ∷ hs) ++ (d ∷ rest) else c ∷ d ∷ rest
expand_user _ path = path
