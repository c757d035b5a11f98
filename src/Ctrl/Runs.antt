-- ===== src/Ctrl/Runs.antt =====
-- HELLO frames read and written.
use bitchat_clone.Base.{◌≡◌, ◌≢◌, refl, [], ◌∷◌, some, arith, replicate, true}
use bitchat_clone.Text.{codes}
use bitchat_clone.Frag.{Chunk}
use bitchat_clone.Frag.RoundTrip.{IsValid}
use bitchat_clone.Frag.Wire.{serialize}
use bitchat_clone.Ctrl.{new_hello, accepted, encode_hello, parse_hello}
use bitchat_clone.Ctrl.RoundTrip.{parse_hello-encode_hello}
use bitchat_clone.Ctrl.Confusion.{single_ne_hello, second_of_two_eq_hello}

parse_hello-encode_hello_example :
    parse_hello (encode_hello (codes "ann") 1 (some (replicate 32 5))) new_hello
    ≡ accepted (record {
      user_id = codes "ann";
      has_caps = true;
      caps = 1;
      has_na32 = true;
      na32 = replicate 32 5;
    })
parse_hello-encode_hello_example =
    parse_hello-encode_hello (codes "ann") 1 (some (replicate 32 5)) (omega arith) refl

-- The fourth message over a link of 100 bytes, if it has 92 bytes sealed: 52 of text.
abbrev tail : Chunk
tail = record {
  hdr = record { ver = 1; flags = 1; msg_id = 3; seq = 1; total = 2; len = 4 };
  payload = 0 ∷ 1 ∷ 2 ∷ 3 ∷ [];
}

tail-IsValid : IsValid tail.hdr
tail-IsValid = record {
  version = refl;
  flags_byte = omega arith;
  id_range = omega arith;
  total_range = omega arith;
  in_range = omega arith;
  short = omega arith;
}

second_of_two_eq_hello_example :
    parse_hello (serialize tail) new_hello
    ≡ accepted (record new_hello { has_caps = true; caps = 50462976 })
second_of_two_eq_hello_example =
    second_of_two_eq_hello tail 0 1 2 3 tail-IsValid refl refl refl refl refl (omega arith)
      (λ e. omega arith) (λ e. omega arith) (λ e. omega arith)

abbrev only : Chunk
only = record {
  hdr = record { ver = 1; flags = 1; msg_id = 1; seq = 0; total = 1; len = 2 };
  payload = 5 ∷ 6 ∷ [];
}

only-IsValid : IsValid only.hdr
only-IsValid = record {
  version = refl;
  flags_byte = omega arith;
  id_range = omega arith;
  total_range = omega arith;
  in_range = omega arith;
  short = omega arith;
}

single_ne_hello_example : parse_hello (serialize only) new_hello ≢ accepted new_hello
single_ne_hello_example = single_ne_hello only new_hello only-IsValid refl (omega arith) refl
