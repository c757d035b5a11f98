-- ===== src/Frag/Wire.antt =====
-- Chunks as bytes: `pack_header`, `unpack_header`, `serialize` and `parse` of src/proto/frag.cpp.
use bitchat_clone.Base.{
  ℕ, ◌+◌, ◌||◌, List, [], ◌∷◌, ◌++◌, Option, none, some, not, leb, ltb, ◌==◌, if◌then◌else◌, length,
  drop, get_or, be16, be32, from_be16, from_be32, Bool,
}
use bitchat_clone.Frag.{Header, Chunk, proto_ver, hdr_size, max_payload}

-- The four tests that both directions make.
abbrev pub rejects : Header → Bool
rejects h = not (h.ver == proto_ver) || (h.total == 0) || leb h.total h.seq || ltb max_payload h.len

-- The twelve bytes that `pack_header` writes.
abbrev pub header_bytes : Header → List ℕ
header_bytes h = h.ver ∷ h.flags ∷ (be32 h.msg_id ++ (be16 h.seq ++ (be16 h.total ++ be16 h.len)))

-- `none` is `return false`, which leaves the output untouched.
unfoldable pub pack_header : Header → Option (List ℕ)
pack_header h = if rejects h then none else some (header_bytes h)

-- The fields as they stand in the first twelve bytes.
abbrev pub read_header : List ℕ → Header
read_header b =
    let at = λ (i : ℕ). get_or b i 0 in
    record {
      ver = at 0;
      flags = at 1;
      msg_id = from_be32 (at 2) (at 3) (at 4) (at 5);
      seq = from_be16 (at 6) (at 7);
      total = from_be16 (at 8) (at 9);
      len = from_be16 (at 10) (at 11);
    }

unfoldable pub unpack_header : List ℕ → Option Header
unpack_header b = if rejects (read_header b) then none else some (read_header b)

abbrev or_empty : Option (List ℕ) → List ℕ → List ℕ
or_empty none rest = []
or_empty (some front) rest = front ++ rest

-- The empty frame is the source's `{}` for an error.
unfoldable pub serialize : Chunk → List ℕ
unfolding pack_header
serialize c = if length c.payload == c.hdr.len then or_empty (pack_header c.hdr) c.payload else []

-- The rest of `parse` once the header is read.
abbrev pub checked : List ℕ → Option Header → Option Chunk
checked frame none = none
checked frame (some h) =
    if length frame == hdr_size + h.len
    then some (record { hdr = h; payload = if h.len == 0 then [] else drop hdr_size frame })
    else none

unfoldable pub parse : List ℕ → Option Chunk
unfolding unpack_header
parse frame = if ltb (length frame) hdr_size then none else checked frame (unpack_header frame)
