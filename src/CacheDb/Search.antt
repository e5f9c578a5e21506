-- ===== src/CacheDb/Search.antt =====
-- rssdisk/rssdisk/extentions/c_manager.cpp: `searchAll`, which answers the entries that a search
-- matches, and rssdisk/client/rssdisk_pool.cpp: `parse_cdb_all`, which reads such answers of several
-- servers. The calls of the JSON library and of zlib are taken not to throw here.
pub mod Records
pub mod Lookup
pub mod Examples
use rssdisk.Base.{
  is_nil, ℕ, zero, suc, ◌+◌, ◌%◌, ◌^◌, Bool, true, false, not, ◌&&◌, ◌||◌, List, [], ◌∷◌, ◌++◌,
  Option, none, some, ltb, leb, ◌==◌, if◌then◌else◌, length, take, drop, bytes, bytes_eq,
}
use rssdisk.Base.Dict.{find, assign, emplace}
use rssdisk.Base.Words.{add_size, i32→size, ltb_i64}
use rssdisk.Bitbase.{numeric_to_chars, chars_to_numeric}
use rssdisk.MapTime.{Clock, TimedVal, steady_clock_to_time_t}
use rssdisk.MapTime
use rssdisk.CacheDb.Manager.{Item, DataStore}
use rssdisk.JsonDb.Query.{Json, Query, f_search, f_search_val, matching}

-- "keys", "tms" and "data".
abbrev pub key_keys : List ℕ
key_keys = 107 ∷ 101 ∷ 121 ∷ 115 ∷ []

abbrev pub key_tms : List ℕ
key_tms = 116 ∷ 109 ∷ 115 ∷ []

abbrev pub key_data : List ℕ
key_data = 100 ∷ 97 ∷ 116 ∷ 97 ∷ []

pub record Search : Type 0 where
  pub keys : List ℕ
  pub tms : List (List ℕ × Query)
  pub searches : List (List ℕ × Query)

abbrev pub no_search : Search
no_search = record { keys = []; tms = []; searches = [] }

-- `first.find(keys) != npos`.
abbrev starts_with : List ℕ → List ℕ → Bool
starts_with [] s = true
starts_with (c ∷ cs) [] = false
starts_with (c ∷ cs) (x ∷ s) = (c == x) && starts_with cs s

abbrev pub occurs : List ℕ → List ℕ → Bool
occurs p [] = starts_with p []
occurs p (x ∷ s) = starts_with p (x ∷ s) || occurs p s

-- The bytes of one entry in the answer.
unfoldable pub entry_record : Clock → List ℕ × TimedVal Item → List ℕ
entry_record c (key, v) =
    numeric_to_chars 8 v.val.timestamp
    ++ (numeric_to_chars 8 v.val.checksum
        ++ (numeric_to_chars 8 (steady_clock_to_time_t c v.valid_until)
            ++ (numeric_to_chars 4 (length key % 2 ^ 32)
                ++ (numeric_to_chars 4 (length v.val.content % 2 ^ 32) ++ (key ++ v.val.content)))))

-- `tms_value` makes the object whose "tms" is the number.
module _ (j : Json) (decompress_string : List ℕ → List ℕ) (tms_value : ℕ → j.Value) where
  open j use {Value, is_object, is_array, is_member, member, member_names, items, as_string, parse}

  unfoldable pub search_items : List Value → List (List ℕ × Query) → List (List ℕ × Query)
  search_items [] searches = searches
  search_items (it ∷ vs) searches =
      search_items vs (if is_object it then f_search j it searches else searches)

  -- The queries on the contents: what stands under "data".
  unfoldable pub data_searches : Value → List (List ℕ × Query)
  unfolding search_items
  data_searches s =
      if is_array s
      then search_items (items s) []
      else if is_object s && not (is_nil (member_names s))
      then f_search j s []
      else []

  unfoldable pub search_of : Value → Search
  unfolding data_searches
  search_of json = record {
    keys = if is_member json key_keys then as_string (member json key_keys) else [];
    tms =
        if is_member json key_tms then (key_tms, f_search_val j (member json key_tms)) ∷ [] else [];
    searches = if is_member json key_data then data_searches (member json key_data) else [];
  }

  -- The search that a text asks for: none, if it is empty or does not parse.
  unfoldable pub parsed_search : Option Value → Search
  unfolding search_of
  parsed_search none = no_search
  parsed_search (some json) = search_of json

  unfoldable pub read_search : List ℕ → Search
  unfolding parsed_search
  read_search [] = no_search
  read_search (c ∷ cs) = parsed_search (parse (c ∷ cs))

  abbrev content_matches : Option Value → List (List ℕ × Query) → Bool
  content_matches none searches = false
  content_matches (some v) searches = matching j v searches

  -- Whether no `continue` passes the entry over.
  unfoldable pub is_found : Search → List ℕ × TimedVal Item → Bool
  is_found s (key, v) =
      (is_nil s.keys || occurs s.keys key)
      && ((is_nil s.tms || matching j (tms_value v.val.timestamp) s.tms)
          && (is_nil s.searches
              || content_matches (parse (decompress_string v.val.content)) s.searches))

  unfoldable pub found_records : Clock → Search → List (List ℕ × TimedVal Item) → List ℕ
  found_records c s [] = []
  found_records c s (it ∷ r) =
      let rest = found_records c s r in if is_found s it then entry_record c it ++ rest else rest

  unfoldable pub search_all : Clock → List ℕ → DataStore → List ℕ
  search_all c search store =
      numeric_to_chars 8 (steady_clock_to_time_t c c.steady)
      ++ found_records c (read_search search) (MapTime.get_all store)

-- `data[key]`, and what `v["data"]` can be.
pub data Shown {ℓ} (V : Type ℓ) : Type ℓ where
  text_value : List ℕ → Shown V
  json_value : V → Shown V
  no_value : Shown V

pub data OutFormat : Type 0 where
  as_json : OutFormat
  as_data : OutFormat
  prefer_json : OutFormat

pub record Read {ℓ} (V : Type ℓ) : Type ℓ where
  pub tms : ℕ
  pub crc32 : ℕ
  pub valid_to : ℕ
  pub shown : Shown V
  pub readed : List ℕ

-- What the loop ends with: a position past the end is thrown by `substr`, and the rounds given may be
-- used up.
pub data Parsed {ℓ} (A : Type ℓ) : Type ℓ where
  unfinished : Parsed A
  thrown : Parsed A
  parsed : A → Parsed A

-- `bitbase::chars_to_numeric(content.substr(pos, w), n)`.
abbrev pub number_in : ℕ → List ℕ → ℕ → ℕ
number_in w d pos = chars_to_numeric w (take w (drop pos d))

module _ {ℓ} {V : Type ℓ} (parse : List ℕ → Option V) (decompress_string : List ℕ → List ℕ)
    (frm : OutFormat) where
  abbrev shown_json : OutFormat → List ℕ → Option V → Shown V
  shown_json as_data s o = text_value s
  shown_json as_json s none = no_value
  shown_json prefer_json s none = text_value s
  shown_json as_json s (some v) = json_value v
  shown_json prefer_json s (some v) = json_value v

  abbrev pub show : List ℕ → Shown V
  show s = shown_json frm s (parse s)

  -- The older of two answers gives way; an answer that is not later adds its address.
  abbrev chosen : Option (Read V) → Read V → Read V
  chosen none fresh = fresh
  chosen (some old) fresh = if ltb_i64 old.tms fresh.tms then fresh else old

  abbrev read_by : ℕ → Read V → Read V
  read_by ip v = record v { readed = v.readed ++ ip ∷ [] }

  unfoldable pub add_read : ℕ → List ℕ → Read V → List (List ℕ × Read V) → List (List ℕ × Read V)
  add_read ip key fresh all = assign key (read_by ip (chosen (find key all) fresh)) all

  -- `while (true)`, from `start`.
  unfoldable pub parse_loop :
      ℕ → ℕ → List ℕ → ℕ → List (List ℕ × Read V) → Parsed (List (List ℕ × Read V))
  parse_loop zero ip d start all = unfinished
  parse_loop (suc fuel) ip d start all =
      let key_size = i32→size (number_in 4 d (start + 24)) in
      let val_size = i32→size (number_in 4 d (start + 28)) in
      let val_at = add_size (start + 32) key_size in
      let fresh : Read V = record {
        tms = number_in 8 d start;
        crc32 = number_in 8 d (start + 8);
        valid_to = number_in 8 d (start + 16);
        shown = show (decompress_string (take val_size (drop val_at d)));
        readed = [];
      } in
      let all' = add_read ip (take key_size (drop (start + 32) d)) fresh all in
      let rest = parse_loop fuel ip d (add_size val_at val_size) all' in
      if not (ltb (add_size start 32) (length d))
      then parsed all
      else if ltb (length d) val_at
      then thrown
      else rest

  -- One answer behind the others: `ip` and `content`.
  unfoldable pub parse_answer :
      ℕ → ℕ × List ℕ → Parsed (List (List ℕ × Read V)) → Parsed (List (List ℕ × Read V))
  unfolding parse_loop
  parse_answer fuel (ip, d) unfinished = unfinished
  parse_answer fuel (ip, d) thrown = thrown
  parse_answer fuel (ip, d) (parsed all) =
      if ltb 40 (length d) then parse_loop fuel ip d 8 all else parsed all

  unfoldable pub parse_answers :
      ℕ → List (ℕ × List ℕ) → Parsed (List (List ℕ × Read V)) → Parsed (List (List ℕ × Read V))
  parse_answers fuel [] r = r
  parse_answers fuel (a ∷ rest) r = parse_answers fuel rest (parse_answer fuel a r)

  unfoldable pub parse_cdb_all : ℕ → List (ℕ × List ℕ) → Parsed (List (List ℕ × Read V))
  unfolding parse_answers
  parse_cdb_all fuel info = parse_answers fuel info (parsed [])
