-- ===== src/JsonDb/Header/Examples.antt =====
-- The title of a database with two indices, one of them of no field, and data behind it.
use rssdisk.Base.{ℕ, ◌≡◌, refl, List, [], ◌∷◌, ◌++◌, length, arith}
use rssdisk.Bitbase.{numeric_to_chars}
use rssdisk.JsonDb.Index.{FieldType, numeric}
use rssdisk.JsonDb.Mapped.{mapped}
use rssdisk.JsonDb.Header.{Built, title_of, headers, index_bytes, header_of, read_indices}
use rssdisk.JsonDb.Header.ReadBack.{IsFound, read_indices-title_of}

abbrev fields : List (List ℕ × FieldType)
fields = ((97 ∷ []), numeric) ∷ []

-- The index of "a" and the index of "bc".
abbrev built : List Built
built = ((97 ∷ []), (1 ∷ 2 ∷ 3 ∷ [])) ∷ ((98 ∷ 99 ∷ []), (4 ∷ 5 ∷ [])) ∷ []

abbrev file : List ℕ
file = title_of 1 fields built ++ (44 ∷ 123 ∷ 125 ∷ [])

file_length : length file ≡ 40
unfolding title_of headers header_of index_bytes numeric_to_chars
file_length = refl

read_indices-title_of_example :
    ((read_indices 7 (mapped file)).0 ≡ length (title_of 1 fields built))
    × IsFound file (read_indices 7 (mapped file)).1 built
read_indices-title_of_example =
    read_indices-title_of 1 fields built (44 ∷ 123 ∷ 125 ∷ []) (omega (arith, file_length))
      ((refl, tt), (tt, tt))
