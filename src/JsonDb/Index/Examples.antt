-- ===== src/JsonDb/Index/Examples.antt =====
-- An index of three entries: searched, and with one more entry put in.
use rssdisk.Base.{ℕ, ◌≡◌, refl, List, [], ◌∷◌, none, some, arith}
use rssdisk.Bitbase.{numeric_to_chars, chars_to_numeric}
use rssdisk.JsonDb.Index.{
  gte, retrieve_cursor, search_all, search_loop, settle, extract_index, entry_bytes, add_to_index,
}
use rssdisk.JsonDb.Index.Entries.{Entry, pack}
use rssdisk.JsonDb.Index.Rounds.{Given}
use rssdisk.JsonDb.Index.Settled.{Answers, position, retrieve_cursor-Answers}
use rssdisk.JsonDb.Index.Insert.{IsInsertion, add_to_index-IsSorted}

abbrev entry : ℕ → ℕ → Entry
entry i offset = record { i = i; offset = offset; size = 7 }

abbrev es : List Entry
es = entry 10 0 ∷ entry 30 8 ∷ entry 30 16 ∷ []

es-Given : Given es 20
es-Given = omega arith

es-Given_equal : Given es 30
es-Given_equal = omega arith

-- A value that is there and one that is not, and one past the end.
position_test :
    (position (retrieve_cursor (pack es) 30 gte) ≡ some 1)
    × (position (retrieve_cursor (pack es) 20 gte) ≡ some 1)
    × (position (retrieve_cursor (pack es) 40 gte) ≡ none)
unfolding retrieve_cursor search_all search_loop settle extract_index pack numeric_to_chars
    chars_to_numeric
position_test = (refl, refl, refl)

add_to_index_test :
    add_to_index (pack es) 20 24 7 ≡ pack (entry 10 0 ∷ entry 20 24 ∷ entry 30 8 ∷ entry 30 16 ∷ [])
unfolding add_to_index retrieve_cursor search_all search_loop settle extract_index pack entry_bytes
    numeric_to_chars chars_to_numeric
add_to_index_test = refl

retrieve_cursor-Answers_example : Answers es 20 gte (retrieve_cursor (pack es) 20 gte)
retrieve_cursor-Answers_example = retrieve_cursor-Answers es 20 gte es-Given

add_to_index-IsSorted_example : IsInsertion (entry 30 24) es (add_to_index (pack es) 30 24 7)
add_to_index-IsSorted_example = add_to_index-IsSorted es (entry 30 24) es-Given_equal
