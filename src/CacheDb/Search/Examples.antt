-- ===== src/CacheDb/Search/Examples.antt =====
-- Two entries, of which a search for keys with a letter in them finds one.
use mathlib.Core.Option
use rssdisk.Base.{
  ℕ, ◌+◌, ◌^◌, ◌≡◌, refl, Bool, true, false, List, [], ◌∷◌, Option, none, some, arith, length,
  bytes, bytes_eq,
}
use rssdisk.Base.Dict.{find}
use rssdisk.Bitbase.{numeric_to_chars}
use rssdisk.MapTime
use rssdisk.MapTime.{Clock}
use rssdisk.CacheDb.Manager.{DataStore}
use rssdisk.JsonDb.Query.{Json}
use rssdisk.CacheDb.Search.{
  as_data, Read, parsed, parse_cdb_all, search_all, is_found, read_search, parsed_search, search_of,
  found_records, entry_record, data_searches, key_keys,
}
use rssdisk.Base.Kept.{passed}
use rssdisk.CacheDb.Search.Lookup.{read_of, find-parse_cdb_all-search_all}

-- JSON values as far as this search goes: {"keys": "k"}, and the string.
data Value : Type 0 where
  query : Value
  chars : Value

abbrev is_query : Value → Bool
is_query query = true
is_query chars = false

abbrev json : Json
json = record {
  Value = Value;
  is_object = is_query;
  is_array = λ v. false;
  is_string = λ v. false;
  is_int = λ v. false;
  is_int64 = λ v. false;
  as_int = λ v. 0;
  as_int64 = λ v. 0;
  is_member = λ v key. bytes_eq key key_keys;
  member = λ v key. chars;
  member_names = λ v. [];
  items = λ v. [];
  to_string = λ v. [];
  is_bool = λ v. false;
  as_bool = λ v. false;
  as_string = λ v. 107 ∷ [];
  null = chars;
  parse = λ s. some query;
  epoch = λ part s. none;
  hash = λ s. 0;
}

abbrev same : List ℕ → List ℕ
same s = s

abbrev as_value : ℕ → Value
as_value t = chars

abbrev unparsed : List ℕ → Option Value
unparsed s = none

abbrev noon : Clock
noon = record { steady = 2 ^ 63 + 5_000_000_000; system = 2 ^ 63 + 1_000_000_000_000_000_000 }

abbrev two_entries : DataStore
two_entries = record {
  map =
      (
        97 ∷ 107 ∷ [],
        record {
          val = record { content = 104 ∷ []; checksum = 1; timestamp = 5 };
          valid_until = 2 ^ 63 + 99_000_000_000;
        },
      )
      ∷ (
        98 ∷ [],
        record {
          val = record { content = 105 ∷ []; checksum = 2; timestamp = 6 };
          valid_until = 2 ^ 63 + 99_000_000_000;
        },
      )
      ∷ [];
  times = [];
}

abbrev answer : List ℕ
answer = search_all json same as_value noon (123 ∷ []) two_entries

length-answer : length answer ≡ 43
unfolding search_all found_records is_found read_search parsed_search search_of data_searches
    entry_record MapTime.get_all numeric_to_chars
length-answer = refl

find-parse_cdb_all-search_all_example :
    (r : List (List ℕ × Read Value)) × (parse_cdb_all unparsed same as_data 3 ((7, answer) ∷ [])
      ≡ parsed r)
    × ((k : List ℕ)
        → find k r
          ≡ Option.map (read_of unparsed same as_data noon 7) (
              passed
                (is_found json same as_value (read_search json same as_value (123 ∷ [])))
                k
                (find k two_entries.map)))
unfolding find
find-parse_cdb_all-search_all_example =
    find-parse_cdb_all-search_all json same as_value unparsed as_data noon 7 3 (123 ∷ [])
      two_entries (refl, (refl, tt))
      (
        record {
          key_fits = omega arith;
          content_fits = omega arith;
          content_pos = omega arith;
          timestamp_fits = omega arith;
          checksum_fits = omega arith;
        },
        (
          record {
            key_fits = omega arith;
            content_fits = omega arith;
            content_pos = omega arith;
            timestamp_fits = omega arith;
            checksum_fits = omega arith;
          },
          tt,
        ),
      )
      (omega arith) (omega (arith, length-answer))
