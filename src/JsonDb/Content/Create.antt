-- ===== src/JsonDb/Content/Create.antt =====
-- `createDatabaseContent`: the indices are built from what the loop over the items has, and the title
-- and the body are put together.
use rssdisk.Base.{
  ℕ, ◌%◌, ◌^◌, List, [], ◌∷◌, ◌++◌, Bool, true, false, not, ◌&&◌, ◌||◌, Option, none, some, ltb,
  ◌==◌, if◌then◌else◌, length, bytes, nat_eq, keep_if,
}
use rssdisk.Base.Dict.{find, emplace, get_or}
use rssdisk.Bitbase.{set_bit, numeric_to_chars}
use rssdisk.Server.Message.{DatabaseContent}
use rssdisk.Server.WType.{WType}
use rssdisk.JsonDb.Index.{FieldType, none_type, entry_bytes, add_to_index, calculate_index_size}
use rssdisk.JsonDb.Query.{Json}
use rssdisk.JsonDb.Header.{Built, title_of}
use rssdisk.JsonDb.Metadata.{Zlib, Metadata, no_metadata, retrieve_compressed_data}
use rssdisk.JsonDb.Content.{Build, Settings, Slots, close_block, internal_idx}
use rssdisk.JsonDb.Content.Items.{read_settings, add_items, place_blocks}

-- An index that is written for the first time.
unfoldable pub index_of : Slots → List ℕ
index_of [] = []
index_of ((i, dd) ∷ m) = entry_bytes i dd.offset dd.size ++ index_of m

-- An index that is added to.
unfoldable pub extend_index : List ℕ → Slots → List ℕ
extend_index index [] = index
extend_index index ((i, dd) ∷ m) = extend_index (add_to_index index i dd.offset dd.size) m

module _ (z : Zlib) (compressed : Bool) (structs : List (List ℕ × Slots)) where
  abbrev pub closed : List ℕ → List ℕ
  closed index = if compressed then z.compress_string index else index

  -- `for (ind : _ex_data.indices)`.
  unfoldable pub build_appended : List (List ℕ × List ℕ) → List Built
  build_appended [] = []
  build_appended ((name, index) ∷ inds) =
      (name, closed (extend_index index (get_or (find name structs) []))) ∷ build_appended inds

  -- `for (it : indexed_fields)`.
  unfoldable pub build_new : List (List ℕ × FieldType) → List Built
  build_new [] = []
  build_new ((name, tp) ∷ fields) =
      (name, closed (index_of (get_or (find name structs) []))) ∷ build_new fields

-- The version with its flags.
abbrev pub flag : Bool → ℕ → ℕ → ℕ
flag true bit n = set_bit n bit
flag false bit n = n

abbrev pub flags_of : Settings → ℕ
flags_of s =
    let n = flag s.compress_data 8 s.version in
    let n' = flag (not (s.compress_particularly_data == 0)) 9 n in flag s.compress_index 10 n'

abbrev pub is_ajdb : WType → Bool
is_ajdb WType.ajdb = true
is_ajdb w = false

-- "jdb" and the version.
abbrev pub title_start : ℕ → List ℕ
title_start version = (106 ∷ 100 ∷ 98 ∷ []) ++ numeric_to_chars 4 version

-- The settings, where the documents are appended in blocks of at least 10000 bytes if they say
-- nothing, and where blocks are compressed one by one.
unfoldable pub settled : WType → Settings → Settings
settled w s =
    let default = is_ajdb w && (s.compress_particularly_data == 0) in
    let particularly = if default then 10000 else s.compress_particularly_data in
    record s {
      compress_particularly_data = particularly;
      compress_data = s.compress_data && (particularly == 0);
    }

module _ (j : Json) (z : Zlib) where
  open j use {Value, is_object, is_array, items, parse, null}

  -- `parseJsonData`.
  unfoldable pub parse_json_data : List ℕ → Option Value
  parse_json_data [] = some null
  parse_json_data (c ∷ cs) = parse (c ∷ cs)

  -- The items of an array, in a new document or behind what is there.
  unfoldable pub build_items : Settings → Metadata → List Value → Build
  unfolding add_items place_blocks
  build_items s ex vs =
      let number =
        if ltb 0 ex.size
        then calculate_index_size (get_or (find internal_idx ex.indices) []) % 2 ^ 32
        else 0 in
      let b = add_items j z s.compress_particularly_data s.indexed_fields vs (record {
        json_data = [];
        offset_data = 0;
        block_number = number;
        body = [];
        rebuild_helper = [];
        block_data = [];
        structs = [];
      }) in
      let last = if length b.json_data == 0 then b else close_block z b in
      if s.compress_particularly_data == 0 then b else record last {
        structs = place_blocks last.rebuild_helper last.block_data (ex.size % 2 ^ 32) last.structs;
      }

  -- What stands under `json_data.isArray()`. `_ex_data.indices[internal_idx]` has made an empty index
  -- where there was none.
  unfoldable pub content_of : Settings → Metadata → List Value → DatabaseContent
  content_of s ex vs =
      let b = build_items s ex (keep_if is_object vs) in
      let appended = ltb 0 ex.size in
      let fields =
        if appended || (s.compress_particularly_data == 0)
        then s.indexed_fields
        else emplace internal_idx none_type s.indexed_fields in
      let built =
        if appended
        then build_appended z s.compress_index b.structs (emplace internal_idx [] ex.indices)
        else build_new z s.compress_index b.structs fields in
      record {
        title = title_of (flags_of s) fields built;
        body = if s.compress_data then z.compress_string b.body else b.body;
        version = s.version;
        append = appended;
        error_occurred = false;
      }

  -- What is returned where the texts do not parse, and where the document is no array.
  abbrev pub no_content : DatabaseContent
  no_content = record { title = []; body = []; version = 1; append = false; error_occurred = false }

  unfoldable pub create_parsed :
      List (List ℕ × List ℕ) → List ℕ → Value → Value → WType → DatabaseContent
  create_parsed files file docs sett w =
      let s = settled w (read_settings j sett) in
      let ex = if is_ajdb w then retrieve_compressed_data z files file else no_metadata in
      if is_array docs then content_of s ex (items docs) else record no_content {
        title = title_start (flags_of s);
        version = s.version;
        append = ltb 0 ex.size;
        error_occurred = true;
      }

  unfoldable pub create_database_content :
      List (List ℕ × List ℕ) → List ℕ → List ℕ → List ℕ → WType → DatabaseContent
  unfolding create_parsed
  create_database_content files file chars sett w = elim (parse_json_data sett) [
    | none ↦ no_content
    | some t ↦ elim (parse_json_data chars) [
      | none ↦ no_content
      | some d ↦ create_parsed files file d t w
    ]
  ]
