-- ===== src/Chat/Receive.antt =====
-- `ChatService::on_rx` of src/app/chat_service.cpp.
use bitchat_clone.Base.{
  ℕ, ◌%◌, ◌||◌, ◌&&◌, List, [], ◌∷◌, ◌++◌, Option, none, some, if◌then◌else◌, leb, ◌==◌, length,
  get_or, take, replicate,
}
use bitchat_clone.Text.{codes}
use bitchat_clone.Aead.{PskAead}
use bitchat_clone.Ctrl.{
  Hello, new_hello, Parsed, accepted, malformed, stuck, parse_hello, msg_ctrl_hello, hello_ver,
}
use bitchat_clone.Frag.{Chunk}
use bitchat_clone.Frag.Wire.{parse}
use bitchat_clone.Frag.Reassembler.{feed}
use bitchat_clone.Chat.{ChatService, Kdf}
use bitchat_clone.Chat.Kex.{maybe_kex}

abbrev pub aad : List ℕ
aad = codes "BC1"

-- The SYSTEM lines that a call prints, which the user interface reads. `quiet` is none of them. `recv`
-- has the bytes and the size that `%.*s` is called with; printf itself stops at a NUL among them.
pub data Shown : Type 0 where
  quiet : Shown
  hello_in : List ℕ → ℕ → Option (List ℕ) → Shown
  recv : List ℕ → Shown
  decrypt_failed : Shown

-- The lines so far and one more.
abbrev pub log : List Shown → Shown → List Shown
log lines quiet = lines
log lines (hello_in u c n) = lines ++ (hello_in u c n ∷ [])
log lines (recv p) = lines ++ (recv p ∷ [])
log lines decrypt_failed = lines ++ (decrypt_failed ∷ [])

abbrev non_empty_or : List ℕ → List ℕ → List ℕ
non_empty_or [] old = old
non_empty_or (c ∷ cs) old = c ∷ cs

-- The members that a HELLO sets. Without a nonce `have_na_peer_` stays as it was.
unfoldable pub note_hello : {Cipher : Type 0} → Hello → ChatService Cipher → ChatService Cipher
note_hello h s = record s {
  peer_user = non_empty_or h.user_id s.peer_user;
  peer_caps = if h.has_caps then h.caps else s.peer_caps;
  peer_has_psk = h.has_caps && (h.caps % 2 == 1);
  peer_na32 = if h.has_na32 then take 32 h.na32 else replicate 32 0;
  have_na_peer = h.has_na32 || s.have_na_peer;
}

abbrev hello_line : {Cipher : Type 0} → Hello → ChatService Cipher → Shown
hello_line h s = hello_in s.peer_user s.peer_caps (if h.has_na32 then some s.peer_na32 else none)

module _ (K : Kdf) (A : PskAead) (env_psk : Option (List ℕ)) where
  open A use {Cipher, unseal}

  unfoldable pub take_hello : Hello → ChatService Cipher → ChatService Cipher × Shown
  take_hello h s = let s' = maybe_kex K A env_psk (note_hello h s) in (s', hello_line h s')

  abbrev show_plain : ChatService Cipher → Option (List ℕ) → Shown
  show_plain s none = decrypt_failed
  show_plain s (some plain) = if s.tail_enabled then recv plain else quiet

  -- What follows `rx_.feed`.
  abbrev pub on_full : ChatService Cipher → Option (List ℕ) → ChatService Cipher × Shown
  on_full s none = (s, quiet)
  on_full s (some full) = (s, show_plain s (unseal s.aead full aad))

  abbrev pub on_chunk : ChatService Cipher → Option Chunk → ChatService Cipher × Shown
  on_chunk s none = (s, quiet)
  on_chunk s (some c) = let (map, full) = feed s.rx c in on_full (record s { rx = map }) full

  -- Parse, reassemble, open, print.
  unfoldable pub on_data : ChatService Cipher → List ℕ → ChatService Cipher × Shown
  on_data s f = on_chunk s (parse f)

  -- A frame that looks like a HELLO and does not parse as one falls through to the data path.
  abbrev pub on_parsed : ChatService Cipher → List ℕ → Parsed → ChatService Cipher × Shown
  on_parsed s f (accepted h) = take_hello h s
  on_parsed s f (malformed h) = on_data s f
  on_parsed s f stuck = on_data s f

  unfoldable pub on_rx : ChatService Cipher → List ℕ → ChatService Cipher × Shown
  on_rx s f =
      if s.ctrl_hello_enabled
        && leb 2 (length f)
        && (get_or f 0 0 == msg_ctrl_hello)
        && (get_or f 1 0 == hello_ver)
      then on_parsed s f (parse_hello f new_hello)
      else on_data s f
