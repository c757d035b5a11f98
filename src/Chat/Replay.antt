-- ===== src/Chat/Replay.antt =====
-- Frames that arrive a second time: `ChatService::on_rx` of src/app/chat_service.cpp on what
-- `send_text` made.
mod Runs
use bitchat_clone.Base.{
  ℕ, ◌≡◌, refl, ap, sym, ◌∙◌, Bool, true, false, not, ◌&&◌, List, [], ◌∷◌, ◌++◌, Option, none, some,
  if◌then◌else◌, length, arith, lookup, IsU32, append_assoc, ◌==◌, Bool-cases, inl, inr, map,
}
use bitchat_clone.Aead.{PskAead}
use bitchat_clone.Frag.{Chunk}
use bitchat_clone.Frag.Chunks.{make_chunks}
use bitchat_clone.Frag.Wire.{serialize}
use bitchat_clone.Frag.Reassembler.{Reassembler}
use bitchat_clone.Frag.Split.{Fits, AreFragments, make_chunks-AreFragments}
use bitchat_clone.Chat.{ChatService, Kdf}
use bitchat_clone.Chat.Receive.{Shown, recv, log, aad, on_rx}
use bitchat_clone.Chat.Send.{Link, is_empty, send_frames, send_chunks}
use bitchat_clone.Chat.Calm.{is_hello, none_hello, none_hello-get_elem?, calm_on_rx}
use bitchat_clone.Chat.Transfer.{Brings, Carries, all_delivered}

module _ (K : Kdf) (A : PskAead) (env_psk : Option (List ℕ)) where
  open A use {Cipher}

  abbrev pub with_line : List Shown → ChatService Cipher × Shown → ChatService Cipher × List Shown
  with_line lines (s, line) = (s, log lines line)

  -- The service and its lines after the frames.
  unfoldable pub hears :
      ChatService Cipher × List Shown → List (List ℕ) → ChatService Cipher × List Shown
  hears w [] = w
  hears w (f ∷ fs) = hears (with_line w.1 (on_rx K A env_psk w.0 f)) fs

  hears-append :
      (w : ChatService Cipher × List Shown) (fs gs : List (List ℕ))
      → hears w (fs ++ gs) ≡ hears (hears w fs) gs
  unfolding hears
  hears-append w [] gs = refl
  hears-append w (f ∷ fs) gs = hears-append (with_line w.1 (on_rx K A env_psk w.0 f)) fs gs

  -- A link that takes every frame to the receiver at once.
  abbrev tape : Link Cipher
  tape = record {
    World = ChatService Cipher × List Shown;
    service = λ w. w.0;
    put_service = λ w s. (s, w.1);
    send = λ w f. (with_line w.1 (on_rx K A env_psk w.0 f), true);
  }

  not_stopped :
      (stop : Bool) (w w' : ChatService Cipher × List Shown)
      (rest : (ChatService Cipher × List Shown) × Bool)
      → (if stop then (w, false) else rest) ≡ (w', true)
      → rest ≡ (w', true)
  not_stopped true w w' rest e = absurd (cc e)
  not_stopped false w w' rest e = e

  frames-hears :
      (cs : List Chunk) (w w' : ChatService Cipher × List Shown)
      → send_frames tape cs w ≡ (w', true)
      → hears w (map serialize cs) ≡ w'
  unfolding send_frames hears
  frames-hears [] w w' e = ap (λ r. r.0) e
  frames-hears (c ∷ cs) w w' e =
      frames-hears cs _ w' (not_stopped (is_empty (serialize c) && not (c.hdr.len == 0)) w w' _ e)

  chunks-hears :
      (sealed : List ℕ) (cs : List Chunk) (w w' : ChatService Cipher × List Shown)
      → send_chunks tape sealed cs w ≡ (w', true)
      → hears w (map serialize cs) ≡ w'
  chunks-hears sealed cs w w' e =
      frames-hears cs w w' (not_stopped (not (is_empty sealed) && is_empty cs) w w' _ e)

  tape-Brings :
      (r : ChatService Cipher) (f : List ℕ)
      → is_hello f ≡ false
      → Brings K A env_psk tape r (λ waiting lines. (record r { rx = waiting }, lines)) f
  tape-Brings r f calm = λ waiting map' lines line q.
      ap (λ w. (with_line lines w, true))
        (calm_on_rx K A env_psk (record r { rx = waiting }) f calm ∙ q)

-- The frames that `send_text` makes of a sealed message.
abbrev pub frames : ℕ → List ℕ → ℕ → List (List ℕ)
frames id sealed mtu = map serialize (make_chunks id sealed mtu)

module _ (K : Kdf) (A : PskAead) (env_psk : Option (List ℕ)) where
  heard_once :
      (r : ChatService A.Cipher) (id mtu : ℕ) (sealed msg : List ℕ) (waiting : Reassembler)
      (lines : List Shown)
      → r.tail_enabled ≡ true
      → Fits sealed mtu
      → IsU32 id
      → A.unseal r.aead sealed aad ≡ some msg
      → none_hello (make_chunks id sealed mtu) ≡ true
      → lookup id waiting ≡ none
      → (map' : Reassembler) × (hears K A env_psk
            (record r { rx = waiting }, lines)
            (frames id sealed mtu)
          ≡ (record r { rx = map' }, lines ++ (recv msg ∷ [])))
        × (lookup id map' ≡ none)
  heard_once r id mtu sealed msg waiting lines tail fit range opens calm idle =
      let at : Reassembler → List Shown → ChatService A.Cipher × List Shown =
        λ m l. (record r { rx = m }, l) in
      let pieces = make_chunks-AreFragments id sealed mtu fit in
      let (map', sent, gone) =
        all_delivered K A env_psk (tape K A env_psk) r at id sealed msg (make_chunks id sealed mtu)
          (record {
            tail = tail;
            fragments = pieces;
            id_range = range;
            opens = opens;
            brings = λ i c e.
                tape-Brings K A env_psk r (serialize c)
                  (none_hello-get_elem? (make_chunks id sealed mtu) i c calm e);
          })
          sealed waiting lines idle in
      (map', chunks-hears K A env_psk sealed (make_chunks id sealed mtu) _ _ sent, gone)

  -- A receiver that shows its lines, and the fragments of a sealed message that it opens: their number
  -- fits, the id is a 32-bit number of which no part is kept, and none of them is taken for a HELLO. If
  -- these frames arrive twice, one time after the other, the text is shown twice, in whatever state the
  -- session is.
  pub replay_shown :
      (r : ChatService A.Cipher) (id mtu : ℕ) (sealed msg : List ℕ) (lines : List Shown)
      → r.tail_enabled ≡ true
      → Fits sealed mtu
      → IsU32 id
      → A.unseal r.aead sealed aad ≡ some msg
      → none_hello (make_chunks id sealed mtu) ≡ true
      → lookup id r.rx ≡ none
      → (map' : Reassembler) × (hears K A env_psk
            (r, lines)
            (frames id sealed mtu ++ frames id sealed mtu)
          ≡ (record r { rx = map' }, lines ++ (recv msg ∷ recv msg ∷ [])))
  replay_shown r id mtu sealed msg lines tail fit range opens calm idle =
      let (map', first, gone) =
        heard_once r id mtu sealed msg r.rx lines tail fit range opens calm idle in
      let (map'', second, _) =
        heard_once r id mtu sealed msg map' (lines ++ (recv msg ∷ [])) tail fit range opens calm
          gone in
      (
        map'',
        hears-append K A env_psk (r, lines) (frames id sealed mtu) (frames id sealed mtu)
            ∙ ap (λ w. hears K A env_psk w (frames id sealed mtu)) first
            ∙ second
            ∙ ap (λ l. (record r { rx = map'' }, l))
                (append_assoc lines (recv msg ∷ []) (recv msg ∷ [])),
      )
