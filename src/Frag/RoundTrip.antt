-- ===== src/Frag/RoundTrip.antt =====
-- The wire format read back: `serialize` and `parse` are inverse to each other.
use bitchat_clone.Base.{
  ℕ, ◌+◌, ◌<◌, ◌≤◌, ◌≡◌, List, [], ◌∷◌, ◌++◌, Option, none, some, false, arith, ap, sym, subst,
  length-drop, ltb, if◌then◌else◌, be16, from_be16, ◌∙◌, guarded_inv, length, drop, drop_all, All,
  IsByte, IsU16, IsU32, from_be16-be16, from_be32-be32,
}
use mathlib.Core.Path.{ap₂}
use bitchat_clone.Frag.{Header, Chunk}
use bitchat_clone.Frag.Wire.{
  rejects, checked, header_bytes, read_header, unpack_header, serialize, parse,
}

-- What `pack_header` demands, with the ranges of the field types.
pub record IsValid (h : Header) : Type 0 where
  pub version : h.ver ≡ 1
  pub flags_byte : IsByte h.flags
  pub id_range : IsU32 h.msg_id
  pub total_range : IsU16 h.total
  pub in_range : h.seq < h.total
  pub short : h.len ≤ 100

abbrev Accepts : (h : Header) → Type 0
Accepts h = rejects h ≡ false

IsValid-Accepts : (h : Header) → IsValid h → Accepts h
IsValid-Accepts h v = ground arith

read_header-header_bytes :
    (h : Header) (rest : List ℕ) → IsValid h → read_header (header_bytes h ++ rest) ≡ h
read_header-header_bytes h rest v = λ i. record {
  ver = h.ver;
  flags = h.flags;
  msg_id = from_be32-be32 h.msg_id v.id_range i;
  seq = from_be16-be16 h.seq (omega arith) i;
  total = from_be16-be16 h.total v.total_range i;
  len = from_be16-be16 h.len (omega arith) i;
}

unpack_header_lem :
    (b : List ℕ) (h : Header) → read_header b ≡ h → Accepts h → unpack_header b ≡ some h
unfolding unpack_header
unpack_header_lem b h e a =
    let read_accepts : rejects (read_header b) ≡ false = ap rejects e ∙ a in
    rw read_accepts (ap some e)

parse_lem :
    (frame : List ℕ) (h : Header)
    → unpack_header frame ≡ some h
    → 12 ≤ length frame
    → length frame ≡ 12 + h.len
    → parse frame ≡ some (record { hdr = h; payload = drop 12 frame })
unfolding parse
parse_lem frame h u l e = rw u (ground (arith, drop_all 12 frame))

-- A chunk with a valid header is written as its header and its payload.
pub serialize_lem :
    (c : Chunk)
    → IsValid c.hdr
    → length c.payload ≡ c.hdr.len
    → serialize c ≡ header_bytes c.hdr ++ c.payload
unfolding serialize
serialize_lem c v e = rw (e, IsValid-Accepts c.hdr v) (ground arith)

-- For a chunk with a valid header whose `len` is the size of its payload, `parse` reads back from
-- the bytes that `serialize` wrote exactly that chunk.
pub parse-serialize :
    (c : Chunk) → IsValid c.hdr → length c.payload ≡ c.hdr.len → parse (serialize c) ≡ some c
parse-serialize c v e = rw (serialize_lem c v e) (
    parse_lem (header_bytes c.hdr ++ c.payload) c.hdr
      (unpack_header_lem _ c.hdr (read_header-header_bytes c.hdr c.payload v)
        (IsValid-Accepts c.hdr v))
      (omega arith) (omega arith))

unpack_header_inv :
    (b : List ℕ) (h : Header)
    → unpack_header b ≡ some h
    → (rejects (read_header b) ≡ false) × (h ≡ read_header b)
unfolding unpack_header
unpack_header_inv b h e = guarded_inv _ _ _ e

checked_inv :
    (frame : List ℕ) (o : Option Header) (c : Chunk)
    → (if ltb (length frame) 12 then none else checked frame o) ≡ some c
    → (12 ≤ length frame)
      × (o ≡ some c.hdr)
      × (c.payload ≡ drop 12 frame)
      × (length frame ≡ 12 + c.hdr.len)
checked_inv frame none c e = ground arith
checked_inv frame (some h) c e = ground (arith, drop_all 12 frame)

-- What a frame that `parse` accepts looks like.
pub parse_inv :
    (frame : List ℕ) (c : Chunk)
    → parse frame ≡ some c
    → (12 ≤ length frame)
      × (unpack_header frame ≡ some c.hdr)
      × (c.payload ≡ drop 12 frame)
      × (length frame ≡ 12 + c.hdr.len)
parse_inv frame c e = checked_inv frame (unpack_header frame) c (unfold parse in e)

-- Two bytes, and four, are the digits of the number that they are read as.
be16-from_be16 : (a b : ℕ) → IsByte a → IsByte b → be16 (from_be16 a b) ≡ a ∷ b ∷ []
be16-from_be16 a b ha hb = ap₂ (λ x y. x ∷ y ∷ []) (omega arith) (omega arith)

header_bytes-read_header :
    (frame : List ℕ)
    → All IsByte frame
    → 12 ≤ length frame
    → header_bytes (read_header frame) ++ drop 12 frame ≡ frame
header_bytes-read_header (a ∷ b ∷ c ∷ d ∷ e ∷ f ∷ g ∷ h ∷ i ∷ j ∷ k ∷ l ∷ rest) bytes _ =
    ground arith
header_bytes-read_header _ bytes n = absurd (omega arith)

Accepts-IsValid :
    (frame : List ℕ)
    → All IsByte frame
    → 12 ≤ length frame
    → rejects (read_header frame) ≡ false
    → IsValid (read_header frame)
Accepts-IsValid (a ∷ b ∷ c ∷ d ∷ e ∷ f ∷ g ∷ h ∷ i ∷ j ∷ k ∷ l ∷ rest) bytes _ r = ground arith
Accepts-IsValid _ bytes n r = absurd (omega arith)

-- When `parse` accepts a frame of bytes, the chunk has a valid header and a payload of the size
-- that the header names, and `serialize` writes that very frame.
pub serialize-parse :
    (frame : List ℕ) (c : Chunk)
    → All IsByte frame
    → parse frame ≡ some c
    → IsValid c.hdr × (length c.payload ≡ c.hdr.len) × (serialize c ≡ frame)
serialize-parse frame c b e =
    let (n, u, p, l) = parse_inv frame c e in
    let (r, h) = unpack_header_inv frame c.hdr u in
    let v : IsValid c.hdr = subst IsValid (sym h) (Accepts-IsValid frame b n r) in
    let size : length c.payload ≡ c.hdr.len = ap length p ∙ length-drop 12 frame ∙ omega arith in
    (v, size, serialize_lem c v size ∙ rw (h, p) (header_bytes-read_header frame b n))
