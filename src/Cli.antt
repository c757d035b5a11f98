-- ===== src/Cli.antt =====
-- The client `bitchatctl` of src/cli/main.cpp, with constants::ctl_sock_path. What it prints is left
-- out; the exit codes are those of include/util/exitcodes.hpp.
use bitchat_clone.Base.{ℕ, Bool, ◌||◌, List, [], ◌∷◌, ◌++◌, Option, some, if◌then◌else◌, map}
use bitchat_clone.Text.{codes, str_eq, to_lower}
use bitchat_clone.Ipc.{has_newline, is_empty, expand_user}
use bitchat_clone.Mac.{is_valid_mac, to_upper_mac}

abbrev pub exit_ok : ℕ
exit_ok = 0

abbrev pub no_server : ℕ
no_server = 2

abbrev pub bad_args : ℕ
bad_args = 3

-- The argument says whether ipc::send_line gets a line to the daemon.
unfoldable pub send_one_line : (List ℕ → Bool) → List ℕ → ℕ
send_one_line reaches line =
    if is_empty line || has_newline line
    then bad_args
    else if reaches (line ++ (10 ∷ []))
    then exit_ok
    else no_server

-- The words after the command, with one blank between two.
abbrev pub joined : List (List ℕ) → List ℕ
joined [] = []
joined (w ∷ []) = w
joined (w ∷ v ∷ rest) = w ++ (32 ∷ joined (v ∷ rest))

abbrev lowered : List ℕ → List ℕ
lowered s = map to_lower s

abbrev pub cmd_send : List (List ℕ) → (List ℕ → ℕ) → ℕ
cmd_send (cmd ∷ w ∷ rest) send = send (codes "SEND " ++ joined (w ∷ rest))
cmd_send _ send = bad_args

abbrev pub cmd_tail : List (List ℕ) → (List ℕ → ℕ) → ℕ
cmd_tail (cmd ∷ v ∷ []) send =
    if str_eq (lowered v) (codes "on") || str_eq (lowered v) (codes "off")
    then send (codes "TAIL " ++ lowered v)
    else bad_args
cmd_tail _ send = bad_args

abbrev pub cmd_connect : List (List ℕ) → (List ℕ → ℕ) → ℕ
cmd_connect (cmd ∷ mac ∷ []) send =
    if is_valid_mac (to_upper_mac mac)
    then send (codes "CONNECT " ++ to_upper_mac mac)
    else bad_args
cmd_connect _ send = bad_args

-- `args` has the command first.
unfoldable pub run_cmd : List ℕ → List (List ℕ) → (List ℕ → ℕ) → ℕ
run_cmd cmd args send =
    if str_eq cmd (codes "send")
    then cmd_send args send
    else if str_eq cmd (codes "tail")
    then cmd_tail args send
    else if str_eq cmd (codes "peers")
    then send (codes "PEERS")
    else if str_eq cmd (codes "connect")
    then cmd_connect args send
    else if str_eq cmd (codes "disconnect")
    then send (codes "DISCONNECT")
    else if str_eq cmd (codes "quit")
    then send (codes "QUIT")
    else bad_args

-- What the option loop leaves: `help`, or the socket's path and the other words.
pub data Options : Type 0 where
  help : Options
  options : List ℕ → List (List ℕ) → Options

-- The words from index `i` on, with the path and the words kept so far.
unfoldable pub option_loop : Option (List ℕ) → List (List ℕ) → List ℕ → List (List ℕ) → Options
option_loop home [] sock args = options sock args
option_loop home (a ∷ []) sock args =
    if str_eq a (codes "--help") || str_eq a (codes "-h")
    then help
    else options sock (args ++ (a ∷ []))
option_loop home (a ∷ b ∷ rest) sock args =
    let with_sock = option_loop home rest (expand_user home b) args in
    let without = option_loop home (b ∷ rest) sock (args ++ (a ∷ [])) in
    if str_eq a (codes "--help") || str_eq a (codes "-h")
    then help
    else if str_eq a (codes "--sock")
    then with_sock
    else without

-- A variable that is set and not empty.
abbrev pub non_empty_or : Option (List ℕ) → List ℕ → List ℕ
non_empty_or (some (c ∷ cs)) default = c ∷ cs
non_empty_or _ default = default

-- The arguments are the values of BITCHAT_CTL_SOCK and HOME.
unfoldable pub ctl_sock_path : Option (List ℕ) → Option (List ℕ) → List ℕ
ctl_sock_path ctl home =
    non_empty_or ctl (non_empty_or home (codes "/tmp") ++ codes "/.cache/bitchat-clone/ctl.sock")

-- The path before the options are read, in `main` of both programs.
abbrev pub sock_path : Option (List ℕ) → Option (List ℕ) → List ℕ
sock_path ctl home = expand_user home (non_empty_or ctl (ctl_sock_path ctl home))

abbrev run_options : (List ℕ → List ℕ → Bool) → Options → ℕ
run_options reaches help = exit_ok
run_options reaches (options sock []) = bad_args
run_options reaches (options sock (cmd ∷ args)) =
    run_cmd cmd (cmd ∷ args) (send_one_line (reaches sock))

-- `words` is `argv` without the program's name; `reaches` is ipc::send_line on a path and a line.
unfoldable pub main :
    (List ℕ → List ℕ → Bool) → Option (List ℕ) → Option (List ℕ) → List (List ℕ) → ℕ
main reaches ctl home [] = bad_args
main reaches ctl home (w ∷ words) =
    run_options reaches (option_loop home (w ∷ words) (sock_path ctl home) [])
