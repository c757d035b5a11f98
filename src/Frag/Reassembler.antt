-- ===== src/Frag/Reassembler.antt =====
-- class Reassembler of include/proto/frag.hpp and src/proto/frag.cpp.
use bitchat_clone.Base.{
  ℕ, zero, suc, ◌+◌, ◌||◌, Bool, true, false, not, List, [], ◌++◌, Option, none, some, leb, ltb,
  ◌==◌, if◌then◌else◌, length, get_or, set, replicate, lookup, insert, erase,
}
use bitchat_clone.Frag.{Chunk}

pub record State : Type 0 where
  pub total : ℕ
  pub received : ℕ
  pub bytes : ℕ
  pub parts : List (List ℕ)
  pub have : List Bool

-- `map_`, from msg_id to the state of that message.
abbrev pub Reassembler : Type 0
Reassembler = List (ℕ × State)

abbrev pub new_reassembler : Reassembler
new_reassembler = []

abbrev pub new_state : State
new_state = record { total = 0; received = 0; bytes = 0; parts = []; have = [] }

-- `map_[msg_id]`, which makes a new state for a key that is missing.
abbrev pub or_new : Option State → State
or_new none = new_state
or_new (some st) = st

-- A new message, or one whose total changed, starts over.
unfoldable pub reset_for : ℕ → State → State
reset_for total st =
    if (st.total == 0) || not (st.total == total)
    then record {
      total = total;
      received = 0;
      bytes = 0;
      parts = replicate total [];
      have = replicate total false;
    }
    else st

-- A duplicate is ignored.
unfoldable pub store_part : ℕ → List ℕ → State → State
store_part seq payload st = if get_or st.have seq false then st else record {
  total = st.total;
  received = st.received + 1;
  bytes = st.bytes + length payload;
  parts = set st.parts seq payload;
  have = set st.have seq true;
}

-- The loop that joins the parts from index `i` on; `none` is its branch that should not happen.
unfoldable pub join : ℕ → ℕ → State → List ℕ → Option (List ℕ)
join zero i st out = some out
join (suc rounds) i st out =
    let rest = join rounds (i + 1) st (out ++ get_or st.parts i []) in
    if get_or st.have i false then rest else none

-- What `feed` does with a valid chunk, given the state after the chunk is stored.
unfoldable pub finish : Reassembler → ℕ → State → Reassembler × Option (List ℕ)
finish map msg_id st =
    if ltb st.received st.total
    then (insert msg_id st map, none)
    else (erase msg_id map, join st.total 0 st [])

unfoldable pub feed : Reassembler → Chunk → Reassembler × Option (List ℕ)
feed map c =
    if (c.hdr.total == 0) || leb c.hdr.total c.hdr.seq || not (c.hdr.len == length c.payload)
    then (map, none)
    else finish map c.hdr.msg_id
        (store_part c.hdr.seq c.payload (reset_for c.hdr.total (or_new (lookup c.hdr.msg_id map))))

unfoldable pub clear : ℕ → Reassembler → Reassembler
clear msg_id map = erase msg_id map
