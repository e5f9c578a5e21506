-- ===== src/JsonDb/Documents/Examples.antt =====
-- An array of two objects with an indexed field, and one number between them, written and read back.
use rssdisk.Base.{
  ℕ, ◌≡◌, refl, List, [], ◌∷◌, Bool, true, false, Option, none, some, length, arith, bytes_eq, ◌==◌,
  if◌then◌else◌, replicate, bytes,
}
use rssdisk.Base.Dict.{find, assign, emplace}
use rssdisk.Bitbase.{numeric_to_chars, set_bit}
use rssdisk.Server.WType.{jdb}
use rssdisk.JsonDb.Index.{entry_bytes}
use rssdisk.JsonDb.Query.{Json, try_make_index_parameter}
use rssdisk.JsonDb.Header.{title_of, headers, header_of, index_bytes}
use rssdisk.JsonDb.Metadata.{Zlib}
use rssdisk.JsonDb.Content.{key_index, key_n, insert_slot, add_value, close_block}
use rssdisk.JsonDb.Content.Items.{
  read_field, read_fields, read_settings, add_names, add_item, add_items, place_blocks,
}
use rssdisk.JsonDb.Content.Create.{
  create_database_content, create_parsed, content_of, build_items, build_new, index_of, settled,
  parse_json_data,
}
use rssdisk.JsonDb.Documents.{fetch, searches_of}
use rssdisk.JsonDb.Documents.RoundTrip.{stored, fetch-create_database_content}

-- The values of this example: {"a": n}, the array, and the settings {"index": [{"n": "a"}]}.
data Value : Type 0 where
  null_value : Value
  number : ℕ → Value
  object : ℕ → Value
  array : Value
  sett : Value
  fields : Value
  field : Value
  name : Value

abbrev is_object : Value → Bool
is_object (object n) = true
is_object sett = true
is_object field = true
is_object v = false

abbrev is_array : Value → Bool
is_array array = true
is_array fields = true
is_array v = false

abbrev is_name : Value → Bool
is_name name = true
is_name v = false

abbrev is_number : Value → Bool
is_number (number n) = true
is_number v = false

abbrev as_number : Value → ℕ
as_number (number n) = n
as_number v = 0

abbrev has_field : Value → List ℕ → Bool
has_field (object n) key = bytes_eq key (97 ∷ [])
has_field sett key = bytes_eq key key_index
has_field field key = bytes_eq key key_n
has_field v key = false

abbrev get_field : Value → List ℕ → Value
get_field (object n) key = number n
get_field sett key = fields
get_field field key = name
get_field v key = null_value

abbrev names_of : Value → List (List ℕ)
names_of (object n) = (97 ∷ []) ∷ []
names_of sett = key_index ∷ []
names_of field = key_n ∷ []
names_of v = []

abbrev items_of : Value → List Value
items_of array = object 5 ∷ number 1 ∷ object 7 ∷ []
items_of fields = field ∷ []
items_of v = []

abbrev text_of : Value → List ℕ
text_of (object n) = 123 ∷ n ∷ 125 ∷ []
text_of v = []

-- '[' stands for the array, and '{' for the settings.
abbrev parsed : List ℕ → Option Value
parsed [] = none
parsed (c ∷ cs) = if c == 91 then some array else if c == 123 then some sett else none

abbrev json : Json
json = record {
  Value = Value;
  is_object = is_object;
  is_array = is_array;
  is_string = is_name;
  is_int = λ v. false;
  is_int64 = is_number;
  as_int = as_number;
  as_int64 = as_number;
  is_member = has_field;
  member = get_field;
  member_names = names_of;
  items = items_of;
  to_string = text_of;
  is_bool = λ v. false;
  as_bool = λ v. false;
  as_string = λ v. 97 ∷ [];
  null = null_value;
  parse = parsed;
  epoch = λ part s. none;
  hash = λ s. 0;
}

abbrev zlib : Zlib
zlib = record { compress_string = λ s. s; decompress_string = λ s. s }

abbrev front : List ℕ
front = replicate 37 48

abbrev ttl : List ℕ
ttl = 48 ∷ []

abbrev file : List ℕ
file = stored front ttl (create_database_content json zlib [] (102 ∷ []) (91 ∷ []) (123 ∷ []) jdb)

length_file : length file ≡ 100
unfolding create_database_content create_parsed content_of build_items build_new index_of settled
    parse_json_data entry_bytes read_field read_fields read_settings add_names add_item add_items
    place_blocks insert_slot add_value close_block title_of headers header_of index_bytes
    numeric_to_chars set_bit find assign emplace try_make_index_parameter
length_file = refl

fetch-create_database_content_example :
    fetch zlib json (((102 ∷ []), file) ∷ []) (102 ∷ []) [] 3
    ≡ 91 ∷ 123 ∷ 5 ∷ 125 ∷ 44 ∷ 123 ∷ 7 ∷ 125 ∷ 93 ∷ []
unfolding parse_json_data find searches_of read_settings
fetch-create_database_content_example =
    fetch-create_database_content json zlib [] (((102 ∷ []), file) ∷ []) (102 ∷ []) (91 ∷ [])
      (123 ∷ []) [] front ttl array sett null_value jdb refl refl refl refl refl (refl, refl, refl)
      refl refl (omega (arith, length_file)) (refl, omega arith, ((ground arith), tt))
