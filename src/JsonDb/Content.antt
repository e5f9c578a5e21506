-- ===== src/JsonDb/Content.antt =====
-- rssdisk/rssdisk/extentions/j_manager.cpp: `createDatabaseContent`, which makes the title of a JSON
-- database and its body from a JSON array. The maps keep the order in which their keys came.
pub mod Items
pub mod Create
use rssdisk.Base.{
  ℕ, zero, suc, ◌+◌, ◌*◌, ◌%◌, ◌^◌, List, [], ◌∷◌, ◌++◌, Bool, true, false, not, ◌&&◌, Option, none,
  some, ltb, leb, ◌==◌, if◌then◌else◌, length, bytes, bytes_eq, nat_eq, keep_if,
}
use rssdisk.Base.Dict.{find, assign, emplace, get_or}
use rssdisk.Base.Words.{add_size, ltb_i64, i32→size}
use rssdisk.Bitbase.{set_bit}
use rssdisk.Server.Message.{DatabaseContent}
use rssdisk.JsonDb.Index.{
  FieldType, none_type, numeric, date, text, BBase, entry_bytes, add_to_index, calculate_index_size,
}
use rssdisk.JsonDb.Query.{Json, try_make_index_parameter}
use rssdisk.JsonDb.Header.{Built, title_of}
use rssdisk.JsonDb.Metadata.{Zlib, Metadata}

-- "index", "n", "t", "date", "string", "compress_data", "compress_index",
-- "compress_particularly_data", "v" and "_idxCfull".
abbrev pub key_index : List ℕ
key_index = 105 ∷ 110 ∷ 100 ∷ 101 ∷ 120 ∷ []

abbrev pub key_n : List ℕ
key_n = 110 ∷ []

abbrev pub key_t : List ℕ
key_t = 116 ∷ []

abbrev pub word_date : List ℕ
word_date = 100 ∷ 97 ∷ 116 ∷ 101 ∷ []

abbrev pub word_string : List ℕ
word_string = 115 ∷ 116 ∷ 114 ∷ 105 ∷ 110 ∷ 103 ∷ []

abbrev pub key_compress : List ℕ
key_compress = 99 ∷ 111 ∷ 109 ∷ 112 ∷ 114 ∷ 101 ∷ 115 ∷ 115 ∷ 95 ∷ []

abbrev pub word_data : List ℕ
word_data = 100 ∷ 97 ∷ 116 ∷ 97 ∷ []

abbrev pub key_compress_data : List ℕ
key_compress_data = key_compress ++ word_data

abbrev pub key_compress_index : List ℕ
key_compress_index = key_compress ++ key_index

abbrev pub key_compress_particularly : List ℕ
key_compress_particularly =
    key_compress
    ++ (112 ∷ 97 ∷ 114 ∷ 116 ∷ 105 ∷ 99 ∷ 117 ∷ 108 ∷ 97 ∷ 114 ∷ 108 ∷ 121 ∷ 95 ∷ word_data)

abbrev pub key_v : List ℕ
key_v = 118 ∷ []

abbrev pub internal_idx : List ℕ
internal_idx = 95 ∷ 105 ∷ 100 ∷ 120 ∷ 67 ∷ 102 ∷ 117 ∷ 108 ∷ 108 ∷ []

-- What the settings say: numbers of 32 bits.
pub record Settings : Type 0 where
  pub compress_index : Bool
  pub compress_data : Bool
  pub compress_particularly_data : ℕ
  pub indexed_fields : List (List ℕ × FieldType)
  pub version : ℕ

abbrev pub no_settings : Settings
no_settings = record {
  compress_index = false;
  compress_data = false;
  compress_particularly_data = 0;
  indexed_fields = [];
  version = 1;
}

-- A multimap from the values of a field to the places of the items.
abbrev pub Slots : Type 0
Slots = List (ℕ × BBase)

-- `insert`, behind the keys that are equal.
unfoldable pub insert_slot : ℕ → BBase → Slots → Slots
insert_slot i dd [] = (i, dd) ∷ []
insert_slot i dd ((k, e) ∷ m) =
    if ltb_i64 i k then (i, dd) ∷ (k, e) ∷ m else (k, e) ∷ insert_slot i dd m

-- What the loop over the items has. A block is known by its number; `rebuild_helper` has the index
-- and the value of each item in it.
pub record Build : Type 0 where
  pub json_data : List ℕ
  pub offset_data : ℕ
  pub block_number : ℕ
  pub body : List ℕ
  pub rebuild_helper : List (ℕ × List (List ℕ × ℕ))
  pub block_data : List (ℕ × ℕ)
  pub structs : List (List ℕ × Slots)

abbrev pub is_none_type : FieldType → Bool
is_none_type none_type = true
is_none_type numeric = false
is_none_type date = false
is_none_type text = false

abbrev is_empty : List ℕ → Bool
is_empty [] = true
is_empty (c ∷ cs) = false

-- `if (!json_data.empty()) json_data += ","`.
abbrev pub separated : List ℕ → List ℕ
separated [] = []
separated (c ∷ cs) = (c ∷ cs) ++ 44 ∷ []

-- One value of a field of an item: into its index, and among those of its block.
unfoldable pub add_value : ℕ → List ℕ → ℕ → FieldType → Build → Build
add_value particularly name i tp b =
    let old = get_or (find name b.structs) [] in
    let helped = get_or (find b.block_number b.rebuild_helper) [] in
    if particularly == 0
    then record b {
      structs =
          assign name
            (insert_slot i
              (record {
                tp = tp;
                offset = b.offset_data;
                size = length b.json_data % 2 ^ 32;
                rebuilded = false;
              })
              old)
            b.structs;
    }
    else record b {
      rebuild_helper = assign b.block_number (helped ++ (name, i) ∷ []) b.rebuild_helper;
      structs =
          assign name
            (insert_slot i
              (record { tp = tp; offset = b.block_number; size = 0; rebuilded = false }) old)
            b.structs;
    }

-- A block is closed: its bytes in the body, its number and size.
unfoldable pub close_block : Zlib → Build → Build
close_block z b =
    let comp = z.compress_string b.json_data in
    record b {
      body = b.body ++ comp;
      block_data = b.block_data ++ (b.block_number, length comp) ∷ [];
    }
