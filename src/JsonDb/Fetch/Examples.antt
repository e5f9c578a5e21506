-- ===== src/JsonDb/Fetch/Examples.antt =====
-- A search in an index of three entries, and the two that go astray.
use rssdisk.Base.{ℕ, ◌≡◌, refl, List, [], ◌∷◌, true, false, none, arith, ◌&&◌, ◌==◌}
use rssdisk.JsonDb.Index.Entries.{Entry, pack}
use rssdisk.JsonDb.Query.{Query, TypeOperation, new_query}
use rssdisk.JsonDb.Fetch.{fetch_indexed_data}
use rssdisk.JsonDb.Fetch.Sets.{any, has, hits}
use rssdisk.JsonDb.Fetch.Scan.{IsIndex, selects, fetch_indexed_data-scan}
use rssdisk.JsonDb.Fetch.Astray.{from_value, fetch_indexed_data-gte}
use rssdisk.JsonDb.Fetch.Overrun.{just_value, fetch_indexed_data-range}

abbrev entry : ℕ → ℕ → Entry
entry i offset = record { i = i; offset = offset; size = 7 }

abbrev es : List Entry
es = entry 10 0 ∷ entry 30 8 ∷ entry 40 16 ∷ []

es-IsIndex : IsIndex es
es-IsIndex = omega arith

abbrev at_most_30 : Query
at_most_30 = record new_query { op = TypeOperation.lte; max = 30 }

fetch_indexed_data-scan_example :
    has 8 (fetch_indexed_data at_most_30 (pack es) none)
    ≡ any (λ e. selects TypeOperation.lte at_most_30 e.i && hits none 8 e) es
fetch_indexed_data-scan_example =
    fetch_indexed_data-scan none es at_most_30 8 es-IsIndex (omega arith)

fetch_indexed_data-gte_example :
    (fetch_indexed_data (from_value 20) (pack (entry 10 5 ∷ entry 30 8 ∷ [])) none ≡ (5, 7) ∷ [])
    × (selects TypeOperation.gte (from_value 20) 10 ≡ false)
    × (selects TypeOperation.gte (from_value 20) 30 ≡ true)
fetch_indexed_data-gte_example =
    fetch_indexed_data-gte (entry 10 5) (entry 30 8) 20 (omega arith) (omega arith) (omega arith)
      refl refl

fetch_indexed_data-range_example :
    (has 0 (
        fetch_indexed_data
          (just_value 30)
          (pack (entry 30 8 ∷ entry 30 16 ∷ entry 30 24 ∷ []))
          none)
      ≡ true)
    × (any
          (λ e. selects TypeOperation.range_lte_gte (just_value 30) e.i && (e.offset == 0))
          (entry 30 8 ∷ entry 30 16 ∷ entry 30 24 ∷ [])
        ≡ false)
fetch_indexed_data-range_example =
    fetch_indexed_data-range (entry 30 8) (entry 30 16) (entry 30 24) (omega arith) (omega arith)
      (omega arith) refl refl (omega arith) (omega arith) (omega arith)
