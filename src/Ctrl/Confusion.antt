-- ===== src/Ctrl/Confusion.antt =====
-- HELLO frames against data frames. `ChatService::on_rx` tells them apart by the first two bytes,
-- which are the version and the flags of a data frame: 1 and 1 for the last fragment of a message.
use bitchat_clone.Base.{
  ℕ, suc, ◌/◌, ◌%◌, ◌^◌, ◌<◌, ◌≤◌, ◌≡◌, ◌≢◌, refl, ap, sym, ◌∙◌, List, [], ◌∷◌, ◌++◌, arith, length,
  true, be16,
}
use native.Mathlib.Decide.{ℕ_discrete}
use bitchat_clone.Frag.{Chunk}
use bitchat_clone.Frag.Wire.{serialize}
use bitchat_clone.Frag.RoundTrip.{IsValid, serialize_lem}
use bitchat_clone.Ctrl.{
  Hello, new_hello, accepted, malformed, take_tlv, tlv_loop, parse_hello, from_le32,
}
use bitchat_clone.Ctrl.RoundTrip.{tlv_loop_more, parse_hello_lem}

-- The header of a chunk whose message id is one byte.
abbrev short_header : ℕ → ℕ → ℕ → ℕ → ℕ → List ℕ
short_header flags id seq total len =
    1 ∷ flags ∷ 0 ∷ 0 ∷ 0 ∷ id ∷ (be16 seq ++ (be16 total ++ be16 len))

serialize_short :
    (c : Chunk)
    → IsValid c.hdr
    → length c.payload ≡ c.hdr.len
    → c.hdr.msg_id < 256
    → serialize c
      ≡ short_header c.hdr.flags c.hdr.msg_id c.hdr.seq c.hdr.total c.hdr.len ++ c.payload
serialize_short c v e l = serialize_lem c v e ∙ λ i.
    v.version i
    ∷ c.hdr.flags
    ∷ b0 i
    ∷ b1 i
    ∷ b2 i
    ∷ b3 i
    ∷ ((be16 c.hdr.seq ++ (be16 c.hdr.total ++ be16 c.hdr.len)) ++ c.payload)
  where
    b0 : c.hdr.msg_id / 2 ^ 24 % 256 ≡ 0
    b0 = omega arith

    b1 : c.hdr.msg_id / 2 ^ 16 % 256 ≡ 0
    b1 = omega arith

    b2 : c.hdr.msg_id / 256 % 256 ≡ 0
    b2 = omega arith

    b3 : c.hdr.msg_id % 256 ≡ c.hdr.msg_id
    b3 = omega arith

-- The entries that a last fragment number 1 of 2 shows: one of type 0 and one of the message's id,
-- both unknown, and then the total and the length as a capability entry of four bytes.
second_of_two_entries :
    (id a b c d : ℕ)
    → id ≢ 1
    → id ≢ 2
    → id ≢ 18
    → tlv_loop 4 (0 ∷ 0 ∷ 0 ∷ id ∷ 0 ∷ 1 ∷ 0 ∷ 2 ∷ 0 ∷ 4 ∷ a ∷ b ∷ c ∷ d ∷ []) new_hello
      ≡ accepted (record new_hello { has_caps = true; caps = from_le32 (a ∷ b ∷ c ∷ d ∷ []) })
unfolding tlv_loop take_tlv
second_of_two_entries id a b c d n1 n2 n18 = ground arith

single_entries :
    (id len : ℕ) (p : List ℕ) (fuel : ℕ) (h : Hello)
    → length p ≤ 100
    → tlv_loop (suc (suc (suc fuel))) (0 ∷ 0 ∷ 0 ∷ id ∷ 0 ∷ 0 ∷ 0 ∷ 1 ∷ 0 ∷ len ∷ p) new_hello
      ≢ accepted h
unfolding tlv_loop take_tlv
single_entries id len p fuel h l = ground arith

parse_hello_other :
    (flags : ℕ) (body : List ℕ) (h : Hello)
    → flags ≢ 1
    → parse_hello (1 ∷ flags ∷ body) h ≡ malformed h
unfolding parse_hello
parse_hello_other flags body h ne = ground arith

-- The only frame of a message with a one-byte id is never taken for a HELLO.
pub single_ne_hello :
    (c : Chunk) (h : Hello)
    → IsValid c.hdr
    → length c.payload ≡ c.hdr.len
    → c.hdr.msg_id < 256
    → c.hdr.total ≡ 1
    → parse_hello (serialize c) new_hello ≢ accepted h
single_ne_hello c h v e l t p = elim (ℕ_discrete c.hdr.flags 1) [
  | yes final ↦ single_entries c.hdr.msg_id c.hdr.len c.payload _ h (omega arith) (
      sym (parse_hello_lem _ new_hello) ∙ ap (λ b. parse_hello b new_hello) (sym (shape final)) ∙ p)
  | no more ↦ absurd (
      cc (
        parse_hello_other c.hdr.flags (rest c.hdr.seq c.hdr.total c.hdr.len) new_hello more,
        p,
        serialize_short c v e l,
      ))
]
  where
    rest : ℕ → ℕ → ℕ → List ℕ
    rest seq total len =
        0 ∷ 0 ∷ 0 ∷ c.hdr.msg_id ∷ ((be16 seq ++ (be16 total ++ be16 len)) ++ c.payload)

    shape :
        c.hdr.flags ≡ 1
        → serialize c ≡ 1 ∷ 1 ∷ 0 ∷ 0 ∷ 0 ∷ c.hdr.msg_id ∷ 0 ∷ 0 ∷ 0 ∷ 1 ∷ 0 ∷ c.hdr.len ∷ c.payload
    shape f = serialize_short c v e l ∙ ground arith

-- The last of two fragments with four bytes of payload is taken for a HELLO, whatever the payload,
-- if the message id is a byte that is no entry type of a HELLO.
pub second_of_two_eq_hello :
    (c : Chunk) (a b d e : ℕ)
    → IsValid c.hdr
    → c.payload ≡ a ∷ b ∷ d ∷ e ∷ []
    → c.hdr.len ≡ 4
    → c.hdr.flags ≡ 1
    → c.hdr.seq ≡ 1
    → c.hdr.total ≡ 2
    → c.hdr.msg_id < 256
    → c.hdr.msg_id ≢ 1
    → c.hdr.msg_id ≢ 2
    → c.hdr.msg_id ≢ 18
    → parse_hello (serialize c) new_hello
      ≡ accepted (record new_hello { has_caps = true; caps = from_le32 (a ∷ b ∷ d ∷ e ∷ []) })
second_of_two_eq_hello c a b d e v p len flags seq total l n1 n2 n18 =
    ap (λ f. parse_hello f new_hello) (serialize_short c v (ap length p ∙ sym len) l ∙ shape)
    ∙ parse_hello_lem _ new_hello
    ∙ tlv_loop_more 4 _ _ new_hello _ (omega arith)
        (second_of_two_entries c.hdr.msg_id a b d e n1 n2 n18) (λ q. cc)
  where
    shape :
        short_header c.hdr.flags c.hdr.msg_id c.hdr.seq c.hdr.total c.hdr.len ++ c.payload
        ≡ 1 ∷ 1 ∷ 0 ∷ 0 ∷ 0 ∷ c.hdr.msg_id ∷ 0 ∷ 1 ∷ 0 ∷ 2 ∷ 0 ∷ 4 ∷ a ∷ b ∷ d ∷ e ∷ []
    shape = rw (p, len, flags, seq, total) refl
