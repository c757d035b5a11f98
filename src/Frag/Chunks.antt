-- ===== src/Frag/Chunks.antt =====
-- `make_chunks` of src/proto/frag.cpp: a payload cut into numbered chunks.
-- The loop recurs on the rounds left. No size here comes near 2 ^ 64, so `size_t` does not wrap.
use bitchat_clone.Base.{
  ℕ, zero, suc, ◌+◌, ◌-◌, ◌*◌, ◌/◌, ◌%◌, ◌^◌, ◌||◌, min, Bool, true, false, List, [], ◌∷◌, ltb,
  ◌==◌, if◌then◌else◌, length, take, drop,
}
use bitchat_clone.Frag.{Chunk, proto_ver, flag_final, max_payload}

-- The body of the loop at index `i`.
unfoldable pub chunk_at : ℕ → List ℕ → ℕ → ℕ → ℕ → Chunk
chunk_at msg_id payload mtu num i =
    let start = i * mtu in
    let size = min mtu (length payload - start) in
    record {
      hdr = record {
        ver = proto_ver;
        flags = if i + 1 == num then flag_final else 0;
        msg_id = msg_id;
        seq = i % 2 ^ 16;
        total = num % 2 ^ 16;
        len = size % 2 ^ 16;
      };
      payload = take size (drop start payload);
    }

unfoldable pub chunk_loop : ℕ → ℕ → List ℕ → ℕ → ℕ → ℕ → List Chunk
chunk_loop zero msg_id payload mtu num i = []
chunk_loop (suc rounds) msg_id payload mtu num i =
    chunk_at msg_id payload mtu num i ∷ chunk_loop rounds msg_id payload mtu num (i + 1)

unfoldable pub empty_chunk : ℕ → Chunk
empty_chunk msg_id = record {
  hdr = record {
    ver = proto_ver;
    flags = flag_final;
    msg_id = msg_id;
    seq = 0;
    total = 1;
    len = 0;
  };
  payload = [];
}

abbrev pub num_chunks : ℕ → ℕ → ℕ
num_chunks size mtu = (size + mtu - 1) / mtu

abbrev is_empty {ℓ} : {A : Type ℓ} → List A → Bool
is_empty [] = true
is_empty (x ∷ xs) = false

-- An empty list is the source's `{}` for a bad size or a payload that is too large.
unfoldable pub make_chunks : ℕ → List ℕ → ℕ → List Chunk
make_chunks msg_id payload mtu =
    if ltb mtu 1 || ltb max_payload mtu
    then []
    else if is_empty payload
    then empty_chunk msg_id ∷ []
    else let num = num_chunks (length payload) mtu in
      if ltb 65535 num then [] else chunk_loop num msg_id payload mtu num 0
