-- ===== src/Frag/Runs.antt =====
-- A message of five bytes in three fragments, on the wire and through the reassembler.
use bitchat_clone.Base.{
  ℕ, ◌≡◌, ◌≢◌, refl, List, [], ◌∷◌, none, some, arith, length, get_elem?, All, zero, suc, inl, inr,
  lookup, insert, erase, ◌<◌, ◌≤◌, IsByte, ◌⊎◌, ◌↔◌, subst, some_inj,
}
use bitchat_clone.Frag.{Chunk}
use bitchat_clone.Frag.Chunks.{make_chunks, chunk_loop, chunk_at, num_chunks}
use bitchat_clone.Frag.Wire.{serialize, parse, pack_header, unpack_header}
use bitchat_clone.Frag.Reassembler.{State, feed, finish, reset_for, store_part, join}
use bitchat_clone.Frag.RoundTrip.{IsValid, parse-serialize, serialize-parse}
use bitchat_clone.Frag.Split.{
  AreFragments, Fits, make_chunks-AreFragments, make_chunks-nil, make_chunks_short,
}
use bitchat_clone.Frag.Assembly.{Outcome, feed-Outcome}
use bitchat_clone.Frag.Delivery.{
  Right, Occurs, IsGenuine, Covers, deliveries, Tracks-none, deliveries-Right, deliveries_complete,
}

abbrev text : List ℕ
text = 104 ∷ 101 ∷ 108 ∷ 108 ∷ 111 ∷ []

abbrev piece : ℕ → ℕ → ℕ → List ℕ → Chunk
piece flags id seq bytes = record {
  hdr = record { ver = 1; flags = flags; msg_id = id; seq = seq; total = 3; len = length bytes };
  payload = bytes;
}

abbrev c0 : Chunk
c0 = piece 0 7 0 (104 ∷ 101 ∷ [])

abbrev c1 : Chunk
c1 = piece 0 7 1 (108 ∷ 108 ∷ [])

abbrev c2 : Chunk
c2 = piece 1 7 2 (111 ∷ [])

abbrev other : Chunk
other = piece 0 8 0 (1 ∷ [])

-- Out of order, one of them twice, and between them a chunk of another message.
abbrev incoming : List Chunk
incoming = c2 ∷ other ∷ c0 ∷ c0 ∷ c1 ∷ []

make_chunks-text : make_chunks 7 text 2 ≡ c0 ∷ c1 ∷ c2 ∷ []
unfolding make_chunks chunk_loop chunk_at
make_chunks-text = refl

serialize-c2 : serialize c2 ≡ 1 ∷ 1 ∷ 0 ∷ 0 ∷ 0 ∷ 7 ∷ 0 ∷ 2 ∷ 0 ∷ 3 ∷ 0 ∷ 1 ∷ 111 ∷ []
unfolding serialize pack_header
serialize-c2 = refl

deliveries-incoming : deliveries [] incoming ≡ (7, text) ∷ []
unfolding deliveries feed finish reset_for store_part join lookup insert erase
deliveries-incoming = refl

text-Fits : Fits text 2
text-Fits = (omega arith, omega arith, omega arith)

c2-IsValid : IsValid c2.hdr
c2-IsValid = record {
  version = refl;
  flags_byte = omega arith;
  id_range = omega arith;
  total_range = omega arith;
  in_range = omega arith;
  short = omega arith;
}

parse-serialize_example : parse (serialize c2) ≡ some c2
parse-serialize_example = parse-serialize c2 c2-IsValid refl

abbrev frame : List ℕ
frame = 1 ∷ 1 ∷ 0 ∷ 0 ∷ 0 ∷ 7 ∷ 0 ∷ 2 ∷ 0 ∷ 3 ∷ 0 ∷ 1 ∷ 111 ∷ []

frame_bytes : All IsByte frame
frame_bytes = (
  omega arith,
  (
    omega arith,
    (
      omega arith,
      (
        omega arith,
        (
          omega arith,
          (
            omega arith,
            (
              omega arith,
              (
                omega arith,
                (omega arith, (omega arith, (omega arith, (omega arith, (omega arith, tt))))),
              ),
            ),
          ),
        ),
      ),
    ),
  ),
)

parse-frame : parse frame ≡ some c2
unfolding parse unpack_header
parse-frame = refl

serialize-parse_example : IsValid c2.hdr × (length c2.payload ≡ c2.hdr.len) × (serialize c2 ≡ frame)
serialize-parse_example = serialize-parse frame c2 frame_bytes parse-frame

make_chunks-AreFragments_example : AreFragments 7 text (make_chunks 7 text 2)
make_chunks-AreFragments_example = make_chunks-AreFragments 7 text 2 text-Fits

make_chunks-nil_example :
    (make_chunks 7 text 101 ≡ [])
    ↔ ((101 < 1) ⊎ (100 < 101) ⊎ ((text ≢ []) × (65535 < num_chunks 5 101)))
make_chunks-nil_example = make_chunks-nil 7 text 101

third : get_elem? (make_chunks 7 text 2) 2 ≡ some c2
unfolding make_chunks chunk_loop chunk_at
third = refl

make_chunks_short_example : length c2.payload ≤ 2
make_chunks_short_example = make_chunks_short 7 text 2 2 c2 text-Fits third

text-AreFragments : AreFragments 7 text (c0 ∷ c1 ∷ c2 ∷ [])
text-AreFragments = subst (AreFragments 7 text) make_chunks-text make_chunks-AreFragments_example

no_state : lookup {V = State} 7 [] ≡ none
unfolding lookup
no_state = refl

feed-Outcome_example : Outcome 7 1 (c0 ∷ c1 ∷ c2 ∷ []) [] (feed [] c1)
feed-Outcome_example =
    feed-Outcome 7 1 text (c0 ∷ c1 ∷ c2 ∷ []) [] c1 text-AreFragments refl
      (Tracks-none 7 (c0 ∷ c1 ∷ c2 ∷ []) [] no_state)

incoming-IsGenuine : All (IsGenuine 7 (c0 ∷ c1 ∷ c2 ∷ [])) incoming
incoming-IsGenuine =
    (inr (2, refl), (inl (λ e. omega arith), (inr (0, refl), (inr (0, refl), (inr (1, refl), tt)))))

incoming-Covers : Covers 7 (c0 ∷ c1 ∷ c2 ∷ []) [] incoming
incoming-Covers zero c e = inr (inr (inr (inl (some_inj e))))
incoming-Covers (suc zero) c e = inr (inr (inr (inr (inr (inl (some_inj e))))))
incoming-Covers (suc (suc zero)) c e = inr (inl (some_inj e))
incoming-Covers (suc (suc (suc i))) c e = absurd (cc e)

deliveries-Right_example : All (Right 7 text) (deliveries [] incoming)
deliveries-Right_example =
    deliveries-Right 7 text (c0 ∷ c1 ∷ c2 ∷ []) incoming [] text-AreFragments
      (Tracks-none 7 (c0 ∷ c1 ∷ c2 ∷ []) [] no_state) incoming-IsGenuine

deliveries_complete_example : Occurs (7, text) (deliveries [] incoming)
deliveries_complete_example =
    deliveries_complete 7 text (c0 ∷ c1 ∷ c2 ∷ []) incoming [] text-AreFragments
      (Tracks-none 7 (c0 ∷ c1 ∷ c2 ∷ []) [] no_state) incoming-IsGenuine incoming-Covers
