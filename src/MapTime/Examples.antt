-- ===== src/MapTime/Examples.antt =====
-- The theorems on `map_time` at concrete inputs.
use rssdisk.Base.{
  ℕ, ◌+◌, ◌^◌, ◌≡◌, refl, List, [], ◌∷◌, Option, some, none, arith, length, nat_eq, ◌==◌,
}
use rssdisk.Base.Dict.{find, assign}
use rssdisk.Bitbase.{numeric_to_chars, chars_to_numeric}
use rssdisk.MapTime.Clocks.{Clock}
use rssdisk.MapTime.Store.{MapTime, TimedVal, empty, insert, get, clear_ttl, deserialize, remove_if}
use rssdisk.MapTime.Invariant.{Inv}
use rssdisk.MapTime.Access.{get-insert, get-remove_if, get-clear_ttl}
use rssdisk.MapTime.Blocks.{blocks, add_all, deserialize-blocks, deserialize_diverges}
use rssdisk.MapTime.History.{Reachable, Reachable-Inv, clear_ttl_exact, start, next, inserts}

abbrev Store : Type 0
Store = MapTime ℕ ℕ

abbrev early : Clock
early = record { steady = 2 ^ 63; system = 2 ^ 63 + 10 ^ 18 }

abbrev late : Clock
late = record { steady = 2 ^ 63 + 20_000_000_000; system = 2 ^ 63 + 10 ^ 18 }

-- One entry, for ten seconds.
abbrev one_value : Store
one_value = insert early 7 42 10 empty

one_value-Reachable : Reachable one_value
one_value-Reachable = next start (inserts early 7 42 10 refl)

Reachable-Inv_example : Inv one_value
Reachable-Inv_example = Reachable-Inv one_value-Reachable

clear_ttl_exact_example : find 7 (clear_ttl late one_value).map ≡ none
unfolding insert find assign
clear_ttl_exact_example = clear_ttl_exact late 7 one_value-Reachable

get-clear_ttl_example : get late 7 (clear_ttl early one_value) ≡ get late 7 one_value
get-clear_ttl_example =
    get-clear_ttl early late 7 one_value (Reachable-Inv one_value-Reachable) (omega arith)

get-insert_example : get early 7 one_value ≡ some 42
get-insert_example = get-insert early early 7 7 42 10 empty

get-remove_if_example : get early 7 (remove_if 7 (λ v. v == 42) one_value) ≡ none
unfolding insert find assign
get-remove_if_example = get-remove_if early 7 7 (λ v. v == 42) one_value

abbrev parse : List ℕ → Option (ℕ × TimedVal ℕ)
parse [] = none
parse (b ∷ bs) = some (b, record { val = length bs; valid_until = 2 ^ 63 })

deserialize-blocks_example :
    deserialize 3 (some parse) (blocks ((1 ∷ 2 ∷ []) ∷ (3 ∷ []) ∷ [])) empty
    ≡ some (add_all parse ((1 ∷ 2 ∷ []) ∷ (3 ∷ []) ∷ []) empty)
unfolding numeric_to_chars
deserialize-blocks_example =
    deserialize-blocks parse ((1 ∷ 2 ∷ []) ∷ (3 ∷ []) ∷ []) 3 empty (omega arith) (omega arith)
      (omega arith) (omega arith)

deserialize_diverges_example :
    deserialize 1000 (some parse) (255 ∷ 255 ∷ 255 ∷ 252 ∷ 0 ∷ []) empty ≡ none
unfolding chars_to_numeric
deserialize_diverges_example =
    deserialize_diverges parse (255 ∷ 255 ∷ 255 ∷ 252 ∷ 0 ∷ []) 1000 empty (omega arith) refl
