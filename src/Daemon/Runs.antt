-- ===== src/Daemon/Runs.antt =====
-- Commands from the client's words to the daemon's calls.
use bitchat_clone.Base.{
  ℕ, ◌≡◌, ◌⊎◌, refl, ap, sym, ◌∙◌, true, false, List, [], ◌∷◌, ◌++◌, none, some,
}
use bitchat_clone.Text.{codes, is_xdigit, to_upper, trim, find_first_not_of, find_last_not_of}
use bitchat_clone.Mac.{is_valid_mac, to_upper_mac}
use bitchat_clone.Dbus.{replied}
use bitchat_clone.Ipc.{
  expand_user, Recv, bytes, Sent, wrote, send_interrupted, send_loop, all_sent, connection,
  after_line, serve,
}
use bitchat_clone.Ipc.Transfer.{incoming}
use bitchat_clone.Cli.{run_cmd, send_one_line, option_loop, sock_path, ctl_sock_path, main, exit_ok}
use bitchat_clone.Bluez.{central, Bluez, new_impl}
use bitchat_clone.Bluez.Central.Pump.{handover_to}
use bitchat_clone.Daemon.Control.{connect_line, over, fits, connect_carried_out}
use bitchat_clone.Daemon.{hands_over, sends, on_line}
use bitchat_clone.Daemon.Commands.{connect_understood, hands_over_valid}

abbrev mac : List ℕ
mac = codes "aa:bb:cc:dd:ee:0f"

mac_valid : is_valid_mac (to_upper_mac mac) ≡ true
unfolding is_valid_mac is_xdigit to_upper
mac_valid = refl

line_understood :
    on_line true [] false (codes "CONNECT " ++ to_upper_mac mac) ≡ hands_over (to_upper_mac mac)
line_understood = (connect_understood mac (λ line. 0) [] false mac_valid).1

-- The line is sent in two calls and received in two others.
abbrev calls : List Sent
calls = wrote 10 ∷ send_interrupted ∷ wrote 16 ∷ []

abbrev recvs : List Recv
recvs = bytes (codes "CONNECT AA:B") ∷ bytes (codes "B:CC:DD:EE:0F" ++ (10 ∷ [])) ∷ []

all_taken :
    send_loop (connect_line mac ++ (10 ∷ [])) calls ≡ (connect_line mac ++ (10 ∷ []), all_sent)
unfolding send_loop to_upper
all_taken = refl

all_received : incoming recvs ≡ connect_line mac ++ (10 ∷ [])
unfolding to_upper
all_received = refl

path_fits : fits (sock_path none none) ≡ true
unfolding ctl_sock_path expand_user
path_fits = refl

abbrev transport : Bluez
unfolding new_impl
transport = record {
  cfg = record {
    role = central;
    adapter = codes "hci0";
    svc_uuid = codes "7e57";
    tx_uuid = codes "7e58";
    rx_uuid = codes "7e59";
    peer_addr = none;
  };
  attached = true;
  mtu = 100;
  running = true;
  impl = some (record new_impl { bus = true });
}

connect_carried_out_example :
    (main (over calls) none none (codes "connect" ∷ mac ∷ []) ≡ exit_ok)
    × (serve (connection recvs ∷ []) ≡ after_line (connect_line mac) (serve []))
    × (on_line true [] false (connect_line mac) ≡ hands_over (to_upper_mac mac))
    × ((handover_to (to_upper_mac mac) 1000 (λ props. replied) replied transport).1 ≡ true)
    × ((handover_to (to_upper_mac mac) 1000 (λ props. replied) replied transport).0.cfg.peer_addr
        ≡ some (to_upper_mac mac))
unfolding transport
connect_carried_out_example =
    connect_carried_out mac none none calls recvs [] [] false 1000 (λ props. replied) replied
      transport (record new_impl { bus = true }) mac_valid path_fits (ap (λ r. r.1) all_taken)
      (all_received ∙ ap (λ r. r.0) (sym all_taken)) refl refl

hands_over_valid_example : (to_upper_mac mac ≡ []) ⊎ (is_valid_mac (to_upper_mac mac) ≡ true)
hands_over_valid_example =
    hands_over_valid true false [] (codes "CONNECT " ++ to_upper_mac mac) (to_upper_mac mac)
      line_understood

on_line_send : on_line false [] false (codes "SEND  hi there ") ≡ sends (codes "hi there")
unfolding on_line trim find_first_not_of find_last_not_of
on_line_send = refl

-- A server that is not there, at the path of the option.
main_no_server :
    main (λ sock line. false) none none (codes "--sock" ∷ codes "x" ∷ codes "peers" ∷ []) ≡ 2
unfolding main option_loop run_cmd send_one_line ctl_sock_path expand_user
main_no_server = refl
