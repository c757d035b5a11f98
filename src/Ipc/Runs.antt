-- ===== src/Ipc/Runs.antt =====
-- The line "PEERS" in two parts of sending and three of receiving.
use bitchat_clone.Base.{ap, sym, ◌≡◌, refl, List, [], ◌∷◌, ◌++◌, some}
use bitchat_clone.Text.{codes}
use bitchat_clone.Ipc.{
  Recv, bytes, recv_interrupted, connection, accept_failed, gave_up, Sent, wrote, send_interrupted,
  all_sent, send_loop, serve, after_line, expand_user,
}
use bitchat_clone.Ipc.Transfer.{line_arrives}

abbrev calls : List Sent
calls = wrote 2 ∷ send_interrupted ∷ wrote 4 ∷ []

abbrev recvs : List Recv
recvs = bytes (codes "P") ∷ bytes (codes "EER") ∷ recv_interrupted ∷ bytes (83 ∷ 10 ∷ []) ∷ []

calls_send : send_loop (codes "PEERS" ++ (10 ∷ [])) calls ≡ (codes "PEERS" ++ (10 ∷ []), all_sent)
unfolding send_loop
calls_send = refl

serve_failing : serve (accept_failed ∷ []) ≡ ([], gave_up)
unfolding serve
serve_failing = refl

expand_user_home : expand_user (some (codes "/home/a")) (codes "~/x") ≡ codes "/home/a/x"
unfolding expand_user
expand_user_home = refl

line_arrives_example :
    serve (connection recvs ∷ accept_failed ∷ [])
    ≡ after_line (codes "PEERS") (serve (accept_failed ∷ []))
line_arrives_example =
    line_arrives (codes "PEERS") calls recvs (accept_failed ∷ []) refl (ap (λ r. r.1) calls_send)
      (ap (λ r. r.0) (sym calls_send))
