-- ===== src/Ipc/Transfer.antt =====
-- A line on its way from `send_line` to the server's handler.
use bitchat_clone.Base.{
  ℕ, ◌≡◌, refl, ap, sym, ◌∙◌, true, false, List, [], ◌∷◌, ◌++◌, if◌then◌else◌, take, drop,
  take-append-drop, Bool-cases, inl, inr, append-nil, append_assoc, ◌==◌, ◌≢◌,
}
use bitchat_clone.Text.{codes, str_eq}
use bitchat_clone.Ipc.{
  Recv, bytes, end_of_file, recv_interrupted, recv_failed, got, has_newline, read_line,
  up_to_newline, strip_cr, Sent, wrote, send_interrupted, send_failed, all_sent, send_loop, Accept,
  connection, closed, after_line, serve,
}

-- However the system splits the transfer, a loop that ends well has written every byte, in order.
pub send_loop_all :
    (line : List ℕ) (calls : List Sent)
    → (send_loop line calls).1 ≡ all_sent
    → (send_loop line calls).0 ≡ line
unfolding send_loop
send_loop_all [] calls e = refl
send_loop_all (c ∷ cs) [] e = absurd (cc e)
send_loop_all (c ∷ cs) (wrote n ∷ rest) e = elim (Bool-cases (n == 0)) [
  | inl z ↦ absurd (cc (rw z at e))
  | inr p ↦ rw p (
      ap (λ w. take n (c ∷ cs) ++ w) (send_loop_all (drop n (c ∷ cs)) rest (rw p at e))
      ∙ take-append-drop n (c ∷ cs))
]
send_loop_all (c ∷ cs) (send_interrupted ∷ rest) e = send_loop_all (c ∷ cs) rest e
send_loop_all (c ∷ cs) (send_failed ∷ rest) e = absurd (cc e)

-- What a list of calls of `recv` brings in, until it ends.
abbrev pub incoming : List Recv → List ℕ
incoming [] = []
incoming (bytes b ∷ rest) = b ++ incoming rest
incoming (end_of_file ∷ rest) = []
incoming (recv_interrupted ∷ rest) = incoming rest
incoming (recv_failed ∷ rest) = []

newline_last : (line : List ℕ) → has_newline (line ++ (10 ∷ [])) ≡ true
newline_last [] = refl
newline_last (c ∷ cs) = elim (Bool-cases (c == 10)) [
  | inl here ↦ rw here refl
  | inr later ↦ rw later (newline_last cs)
]

-- A part that has the newline is the whole.
whole_line :
    (xs ys line : List ℕ)
    → has_newline line ≡ false
    → has_newline xs ≡ true
    → xs ++ ys ≡ line ++ (10 ∷ [])
    → xs ≡ line ++ (10 ∷ [])
whole_line [] ys line n h e = absurd (cc h)
whole_line (x ∷ []) ys [] n h e = ap (λ c. c ∷ []) (cc e)
whole_line (x ∷ y ∷ xs) ys [] n h e = absurd (cc e)
whole_line (x ∷ xs) ys (c ∷ cs) n h e = elim (Bool-cases (c == 10)) [
  | inl here ↦ absurd (cc (rw here at n))
  | inr later ↦
      let same : x ≡ c = cc e in
      rw same (ap (λ t. c ∷ t) (whole_line xs ys cs (rw later at n) (rw (same, later) at h) (cc e)))
]

unfinished : (acc line : List ℕ) → has_newline acc ≡ false → acc ≢ line ++ (10 ∷ [])
unfinished acc line a e = cc (a, ap has_newline e, newline_last line)

read_line_whole :
    (acc line : List ℕ) (recvs : List Recv)
    → has_newline line ≡ false
    → has_newline acc ≡ false
    → acc ++ incoming recvs ≡ line ++ (10 ∷ [])
    → read_line acc recvs ≡ got (line ++ (10 ∷ []))
unfolding read_line
read_line_whole acc line [] n a e = absurd (unfinished acc line a (sym (append-nil acc) ∙ e))
read_line_whole acc line (bytes b ∷ rest) n a e = elim (Bool-cases (has_newline (acc ++ b))) [
  | inl done ↦ rw done (
      ap got (
        whole_line (acc ++ b) (incoming rest) line n done (append_assoc acc b (incoming rest) ∙ e)))
  | inr more ↦
      rw more (read_line_whole (acc ++ b) line rest n more (append_assoc acc b (incoming rest) ∙ e))
]
read_line_whole acc line (end_of_file ∷ rest) n a e =
    absurd (unfinished acc line a (sym (append-nil acc) ∙ e))
read_line_whole acc line (recv_interrupted ∷ rest) n a e = read_line_whole acc line rest n a e
read_line_whole acc line (recv_failed ∷ rest) n a e =
    absurd (unfinished acc line a (sym (append-nil acc) ∙ e))

up_to_newline_lem :
    (line : List ℕ) → has_newline line ≡ false → up_to_newline (line ++ (10 ∷ [])) ≡ line
up_to_newline_lem [] n = refl
up_to_newline_lem (c ∷ cs) n = elim (Bool-cases (c == 10)) [
  | inl here ↦ absurd (cc (rw here at n))
  | inr later ↦ rw later (ap (λ t. c ∷ t) (up_to_newline_lem cs (rw later at n)))
]

-- A line without a newline that `send_line` wrote to its end, with a newline after it, is handed to
-- the handler, less one carriage return at its end, however the system splits what it sends and
-- what it receives; then the server goes on to the next connection, or ends if the line is QUIT.
pub line_arrives :
    (line : List ℕ) (calls : List Sent) (recvs : List Recv) (rest : List Accept)
    → has_newline line ≡ false
    → (send_loop (line ++ (10 ∷ [])) calls).1 ≡ all_sent
    → incoming recvs ≡ (send_loop (line ++ (10 ∷ [])) calls).0
    → serve (connection recvs ∷ rest) ≡ (
        if str_eq (strip_cr line) (codes "QUIT")
        then (strip_cr line ∷ [], closed)
        else after_line (strip_cr line) (serve rest))
unfolding serve
line_arrives line calls recvs rest n s e = rw (
  read_line_whole [] line recvs n refl (e ∙ send_loop_all (line ++ (10 ∷ [])) calls s),
  up_to_newline_lem line n,
)
