-- ===== src/Chat/Entropy/Runs.antt =====
-- 40 bytes in two calls, of which the second stores the twelve that are wanted.
use bitchat_clone.Base.{ℕ, ◌≡◌, true, not, List, [], ◌∷◌, ◌++◌, ltb, length, take, drop, replicate}
use bitchat_clone.Chat.Entropy.{Read, took, get_na32, is_drawn, brought, get_na32_lem}

abbrev calls : List Read
calls = took 1 (replicate 19 1) ∷ took 2 (replicate 19 2) ∷ []

abbrev old : List ℕ
old = replicate 32 0

get_na32_lem_example :
    ((get_na32 true old calls).0
      ≡ take 32 (brought calls) ++ drop (length (take 32 (brought calls))) old)
    × (is_drawn (get_na32 true old calls).1 ≡ not (ltb (length (brought calls)) 32))
get_na32_lem_example = get_na32_lem old calls
