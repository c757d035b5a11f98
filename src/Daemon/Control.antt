-- ===== src/Daemon/Control.antt =====
-- An address on its way from the client's command line to the transport: `main` and `run_cmd` of
-- src/cli/main.cpp, `send_line` and `start_server` of src/ctl/ipc.cpp, `on_line` of
-- src/daemon/main.cpp, and `handover_to` of src/transport/bluez_transport_central.cpp.
use bitchat_clone.Base.{
  ℕ, suc, ◌+◌, ◌%◌, ◌≡◌, refl, ap, ◌∙◌, Bool, true, false, not, List, [], ◌∷◌, ◌++◌, Option, some,
  arith, if◌then◌else◌, length, leb, ◌==◌, ◌&&◌, both_true,
}
use bitchat_clone.Text.{codes, str_eq, is_xdigit, to_upper}
use bitchat_clone.Mac.{mac_chars, is_valid_mac, to_upper_mac}
use bitchat_clone.Dbus.{Called, Props}
use bitchat_clone.Ipc.{
  has_newline, is_empty, strip_cr, Recv, Sent, Sending, all_sent, send_error, blocked, send_loop,
  send_line, sun_path_size, Accept, connection, after_line, serve, closed,
}
use bitchat_clone.Ipc.Transfer.{incoming, line_arrives}
use bitchat_clone.Cli.{exit_ok, sock_path, option_loop, options, send_one_line, main}
use bitchat_clone.Bluez.{Peer, Impl, Bluez}
use bitchat_clone.Bluez.Central.Pump.{handover_to}
use bitchat_clone.Daemon.{hands_over, on_line}
use bitchat_clone.Daemon.Commands.{connect_understood}

abbrev pub is_all_sent : Sending → Bool
is_all_sent all_sent = true
is_all_sent send_error = false
is_all_sent blocked = false

-- What the client learns of a socket that it can open and connect.
abbrev pub over : List Sent → List ℕ → List ℕ → Bool
over calls path line = is_all_sent (send_line path line true true calls).1

-- The line for an address.
abbrev pub connect_line : List ℕ → List ℕ
connect_line mac = codes "CONNECT " ++ to_upper_mac mac

-- A path that `sockaddr_un` can hold.
abbrev pub fits : List ℕ → Bool
fits path = not (is_empty path) && not (leb sun_path_size (length path))

first_xdigit :
    (c : ℕ) (cs : List ℕ)
    → is_valid_mac (to_upper_mac (c ∷ cs)) ≡ true
    → is_xdigit (to_upper c) ≡ true
unfolding is_valid_mac
first_xdigit c cs v =
    let (_, chars) =
      both_true (suc (length (to_upper_mac cs)) == 17) (mac_chars 0 (to_upper_mac (c ∷ cs))) v in
    (both_true (is_xdigit (to_upper c)) (mac_chars 1 (to_upper_mac cs)) chars).0

no_dash : (c : ℕ) → is_xdigit (to_upper c) ≡ true → (c == b'-') ≡ false
unfolding is_xdigit to_upper
no_dash c h = ground arith

-- An address is no option.
no_option :
    (mac rest : List ℕ) → is_valid_mac (to_upper_mac mac) ≡ true → str_eq mac (b'-' ∷ rest) ≡ false
no_option [] rest v = refl
no_option (c ∷ cs) rest v = rw (no_dash c (first_xdigit c cs v)) refl

plain_char :
    (colon : Bool) (c : ℕ)
    → (if colon then c == b':' else is_xdigit c) ≡ true
    → ((c == 10) ≡ false) × ((c == 13) ≡ false)
unfolding is_xdigit
plain_char colon c h = (ground arith, ground arith)

mac_no_newline : (i : ℕ) (s : List ℕ) → mac_chars i s ≡ true → has_newline s ≡ false
mac_no_newline i [] h = refl
mac_no_newline i (c ∷ cs) h =
    let (first, rest) = both_true _ (mac_chars (i + 1) cs) h in
    rw (plain_char (i % 3 == 2) c first).0 (mac_no_newline (i + 1) cs rest)

mac_no_cr : (i : ℕ) (s : List ℕ) → mac_chars i s ≡ true → strip_cr s ≡ s
mac_no_cr i [] h = refl
mac_no_cr i (c ∷ []) h =
    let (first, _) = both_true _ (mac_chars (i + 1) []) h in
    rw (plain_char (i % 3 == 2) c first).1 refl
mac_no_cr i (c ∷ d ∷ rest) h =
    ap (λ t. c ∷ t) (mac_no_cr (i + 1) (d ∷ rest) (both_true _ (mac_chars (i + 1) (d ∷ rest)) h).1)

line_no_newline : (s : List ℕ) → is_valid_mac s ≡ true → has_newline (codes "CONNECT " ++ s) ≡ false
unfolding is_valid_mac
line_no_newline s v = mac_no_newline 0 s (both_true (length s == 17) (mac_chars 0 s) v).1

line_no_cr :
    (s : List ℕ) → is_valid_mac s ≡ true → strip_cr (codes "CONNECT " ++ s) ≡ codes "CONNECT " ++ s
unfolding is_valid_mac
line_no_cr [] v = absurd (cc v)
line_no_cr (c ∷ cs) v =
    ap (λ t. codes "CONNECT " ++ t)
      (mac_no_cr 0 (c ∷ cs) (both_true (length (c ∷ cs) == 17) (mac_chars 0 (c ∷ cs)) v).1)

words_lem :
    (mac sock : List ℕ) (home : Option (List ℕ))
    → is_valid_mac (to_upper_mac mac) ≡ true
    → option_loop home (codes "connect" ∷ mac ∷ []) sock []
      ≡ options sock (codes "connect" ∷ mac ∷ [])
unfolding option_loop
words_lem mac sock home v = rw (no_option mac (codes "-help") v, no_option mac (codes "h") v)

over_lem :
    (calls : List Sent) (path : List ℕ) (c : ℕ) (cs : List ℕ)
    → fits path ≡ true
    → (send_loop (c ∷ cs) calls).1 ≡ all_sent
    → over calls path (c ∷ cs) ≡ true
unfolding send_line
over_lem calls path c cs f e = ground (arith, ap is_all_sent e)

send_lem :
    (calls : List Sent) (path line : List ℕ)
    → fits path ≡ true
    → is_empty line ≡ false
    → has_newline line ≡ false
    → (send_loop (line ++ (10 ∷ [])) calls).1 ≡ all_sent
    → send_one_line (over calls path) line ≡ exit_ok
unfolding send_one_line
send_lem calls path [] f e n s = absurd (cc e)
send_lem calls path (c ∷ cs) f e n s = rw (n, over_lem calls path c (cs ++ (10 ∷ [])) f s) refl

client_lem :
    (mac : List ℕ) (ctl home : Option (List ℕ)) (calls : List Sent)
    → is_valid_mac (to_upper_mac mac) ≡ true
    → fits (sock_path ctl home) ≡ true
    → (send_loop (connect_line mac ++ (10 ∷ [])) calls).1 ≡ all_sent
    → main (over calls) ctl home (codes "connect" ∷ mac ∷ []) ≡ exit_ok
unfolding main
client_lem mac ctl home calls v f s = rw (words_lem mac (sock_path ctl home) home v) (
    (connect_understood mac (send_one_line (over calls (sock_path ctl home))) [] false v).0
    ∙ send_lem calls (sock_path ctl home) (connect_line mac) f refl
        (line_no_newline (to_upper_mac mac) v) s)

server_lem :
    (mac : List ℕ) (calls : List Sent) (recvs : List Recv) (rest : List Accept)
    → is_valid_mac (to_upper_mac mac) ≡ true
    → (send_loop (connect_line mac ++ (10 ∷ [])) calls).1 ≡ all_sent
    → incoming recvs ≡ (send_loop (connect_line mac ++ (10 ∷ [])) calls).0
    → serve (connection recvs ∷ rest) ≡ after_line (connect_line mac) (serve rest)
server_lem mac calls recvs rest v s e =
    line_arrives (connect_line mac) calls recvs rest (line_no_newline (to_upper_mac mac) v) s e
    ∙ ap
        (λ line.
          if str_eq line (codes "QUIT") then (line ∷ [], closed) else after_line line (serve rest))
        (line_no_cr (to_upper_mac mac) v)

handover_lem :
    (addr : List ℕ) (now : ℕ) (filter : Props → Called) (start : Called) (t : Bluez) (i : Impl)
    → t.impl ≡ some i
    → i.bus ≡ true
    → ((handover_to addr now filter start t).1 ≡ true)
      × ((handover_to addr now filter start t).0.cfg.peer_addr ≡ some addr)
unfolding handover_to
handover_lem addr now filter start t i e b = rw e (ground arith, ground arith)

-- An address that is valid in upper case, given to the client's `connect`, where the socket's path fits
-- into its address, and the client's calls of `send` take the whole line: the client ends with
-- success; the next line that the server hands on is CONNECT and the address in upper case, however
-- what was sent is split into what is received; the daemon on BlueZ makes of it a handover to exactly that
-- address; and on an open bus the handover succeeds and makes it the peer that is wanted.
pub connect_carried_out :
    (mac : List ℕ) (ctl home : Option (List ℕ)) (calls : List Sent) (recvs : List Recv)
    (rest : List Accept) (peers : List Peer) (keep_zero : Bool) (now : ℕ) (filter : Props → Called)
    (start : Called) (t : Bluez) (i : Impl)
    → is_valid_mac (to_upper_mac mac) ≡ true
    → fits (sock_path ctl home) ≡ true
    → (send_loop (connect_line mac ++ (10 ∷ [])) calls).1 ≡ all_sent
    → incoming recvs ≡ (send_loop (connect_line mac ++ (10 ∷ [])) calls).0
    → t.impl ≡ some i
    → i.bus ≡ true
    → (main (over calls) ctl home (codes "connect" ∷ mac ∷ []) ≡ exit_ok)
      × (serve (connection recvs ∷ rest) ≡ after_line (connect_line mac) (serve rest))
      × (on_line true peers keep_zero (connect_line mac) ≡ hands_over (to_upper_mac mac))
      × ((handover_to (to_upper_mac mac) now filter start t).1 ≡ true)
      × ((handover_to (to_upper_mac mac) now filter start t).0.cfg.peer_addr
          ≡ some (to_upper_mac mac))
connect_carried_out mac ctl home calls recvs rest peers keep_zero now filter start t i v f s e impl
      bus =
    let (done, wanted) = handover_lem (to_upper_mac mac) now filter start t i impl bus in
    (
      client_lem mac ctl home calls v f s,
      server_lem mac calls recvs rest v s e,
      (connect_understood mac (λ line. 0) peers keep_zero v).1,
      done,
      wanted,
    )
