-- ===== src/JsonDb/Content/Items.antt =====
-- `createDatabaseContent`: the settings, the loop over the items, and the blocks.
use rssdisk.Base.{
  ℕ, ◌+◌, ◌%◌, ◌^◌, List, [], ◌∷◌, ◌++◌, Bool, true, not, ◌&&◌, Option, none, some, leb, ◌==◌,
  if◌then◌else◌, length, bytes, bytes_eq, nat_eq,
}
use rssdisk.Base.Dict.{find, assign, emplace, get_or}
use rssdisk.Base.Words.{i32→size}
use rssdisk.JsonDb.Index.{FieldType, numeric, date, text, BBase}
use rssdisk.JsonDb.Query.{Json, try_make_index_parameter}
use rssdisk.JsonDb.Metadata.{Zlib}
use rssdisk.JsonDb.Content.{
  Build, Settings, Slots, no_settings, add_value, close_block, insert_slot, separated, is_none_type,
  key_index, key_n, key_t, word_date, word_string, key_compress_data, key_compress_index,
  key_compress_particularly, key_v, internal_idx,
}

module _ (j : Json) where
  open j use {
    Value, is_object, is_array, is_string, is_int, is_bool, as_int, as_bool, as_string, is_member,
    member, member_names, items, to_string,
  }

  abbrev pub is_member_of : (Value → Bool) → Value → List ℕ → Bool
  is_member_of is v key = is_member v key && is (member v key)

  abbrev pub type_of_word : List ℕ → FieldType
  type_of_word w =
      if bytes_eq w word_date then date else if bytes_eq w word_string then text else numeric

  -- One item of "index".
  unfoldable pub read_field : Value → List (List ℕ × FieldType) → List (List ℕ × FieldType)
  read_field item fields =
      let tp =
        if is_member_of is_string item key_t
        then type_of_word (as_string (member item key_t))
        else numeric in
      if is_object item && is_member_of is_string item key_n
      then emplace (as_string (member item key_n)) tp fields
      else fields

  unfoldable pub read_fields : List Value → List (List ℕ × FieldType) → List (List ℕ × FieldType)
  read_fields [] fields = fields
  read_fields (item ∷ vs) fields = read_fields vs (read_field item fields)

  unfoldable pub read_settings : Value → Settings
  unfolding read_fields
  read_settings s =
      if is_object s
      then record {
        compress_index =
            is_member_of is_bool s key_compress_index && as_bool (member s key_compress_index);
        compress_data =
            is_member_of is_bool s key_compress_data && as_bool (member s key_compress_data);
        compress_particularly_data =
            if is_member_of is_int s key_compress_particularly
            then as_int (member s key_compress_particularly)
            else 0;
        indexed_fields =
            if is_member_of is_array s key_index
            then read_fields (items (member s key_index)) []
            else [];
        version = if is_member_of is_int s key_v then as_int (member s key_v) else 1;
      }
      else no_settings

  module _ (z : Zlib) (particularly : ℕ) (fields : List (List ℕ × FieldType)) where
    abbrev pub indexed : Value → List ℕ → Option FieldType → Build → Build
    indexed item name none b = b
    indexed item name (some tp) b =
        let made = try_make_index_parameter j item name 0 tp in
        if is_none_type made.0 then b else add_value particularly name made.1 tp b

    -- `for (name : item.getMemberNames())`.
    unfoldable pub add_names : Value → List (List ℕ) → Build → Build
    add_names item [] b = b
    add_names item (name ∷ names) b = add_names item names (indexed item name (find name fields) b)

    -- One round of the loop over the items.
    unfoldable pub add_item : Value → Build → Build
    add_item item b =
        let before = if particularly == 0 then [] else b.json_data in
        let chars = separated before ++ to_string item in
        let named = add_names item (member_names item) (record b { json_data = chars }) in
        if particularly == 0
        then record named {
          offset_data = (named.offset_data + 1 + length chars) % 2 ^ 32;
          body = named.body ++ 44 ∷ chars;
        }
        else if leb (i32→size particularly) (length chars)
        then record (close_block z named) {
          json_data = [];
          block_number = (named.block_number + 1) % 2 ^ 32;
        }
        else named

    unfoldable pub add_items : List Value → Build → Build
    add_items [] b = b
    add_items (item ∷ vs) b = add_items vs (add_item item b)

-- The entries of one value whose block is written: they get its place and size, once.
unfoldable pub rebuild_slots : ℕ → ℕ → ℕ → ℕ → Slots → Slots
rebuild_slots block i offset size [] = []
rebuild_slots block i offset size ((k, e) ∷ m) =
    let rest = rebuild_slots block i offset size m in
    if (k == i) && (not e.rebuilded && (e.offset == block))
    then (k, record e { offset = offset; size = size; rebuilded = true }) ∷ rest
    else (k, e) ∷ rest

-- `for (b : f_block->second)`.
unfoldable pub rebuild_items :
    ℕ → ℕ → ℕ → List (List ℕ × ℕ) → List (List ℕ × Slots) → List (List ℕ × Slots)
rebuild_items block offset size [] structs = structs
rebuild_items block offset size ((name, i) ∷ bs) structs =
    let rebuilt : List (List ℕ × Slots) = elim (find name structs) [
      | none ↦ structs
      | some m ↦ assign name (rebuild_slots block i offset size m) structs
    ] in
    rebuild_items block offset size bs rebuilt

-- `for (it : block_data)`: the entries are rebuilt, and the block gets one of its own.
unfoldable pub place_blocks :
    List (ℕ × List (List ℕ × ℕ)) → List (ℕ × ℕ) → ℕ → List (List ℕ × Slots) → List (List ℕ × Slots)
place_blocks helper [] offset structs = structs
place_blocks helper ((block, n) ∷ blocks) offset structs =
    let rebuilt = rebuild_items block offset (n % 2 ^ 32) (get_or (find block helper) []) structs in
    let dd : BBase = record {
      tp = numeric;
      offset = offset;
      size = n % 2 ^ 32;
      rebuilded = true;
    } in
    place_blocks helper blocks ((offset + n) % 2 ^ 32)
      (assign internal_idx (insert_slot block dd (get_or (find internal_idx rebuilt) [])) rebuilt)
