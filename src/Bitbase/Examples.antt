-- ===== src/Bitbase/Examples.antt =====
-- The theorems on packing at concrete inputs, and tests.
use rssdisk.Base.{ℕ, List, some, ◌≡◌, refl, [], ◌∷◌, arith}
use rssdisk.Bitbase.{numeric_to_chars, comress_list, uncomress_list}
use rssdisk.Bitbase.IntLists.{IsAscending, contains, uncomress_list-comress_list}

big_endian : numeric_to_chars 4 0x01020304 ≡ 1 ∷ 2 ∷ 3 ∷ 4 ∷ []
unfolding numeric_to_chars
big_endian = refl

uncomress_list-comress_list_example :
    (s : List ℕ) × (uncomress_list 2 (comress_list 2 (300 ∷ 7 ∷ 300 ∷ [])) ≡ some s)
    × IsAscending s
    × ((x : ℕ) → contains x s ≡ contains x (300 ∷ 7 ∷ 300 ∷ []))
uncomress_list-comress_list_example =
    uncomress_list-comress_list 2 (300 ∷ 7 ∷ 300 ∷ []) (omega arith) (omega arith)
      (omega arith, (omega arith, (omega arith, tt)))
