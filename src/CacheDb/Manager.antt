-- ===== src/CacheDb/Manager.antt =====
-- rssdisk/rssdisk/extentions/c_manager.cpp: the class `CDatabaseManager`.
-- A round of a loop is taken on fuel; `none` means that the rounds given did not end the loop. No
-- `substr` here can throw, since every position has been compared with the size before.
use rssdisk.Base.{
  ℕ, zero, suc, ◌+◌, ◌%◌, ◌^◌, Bool, true, false, List, [], ◌∷◌, ◌++◌, Option, none, some, ltb, leb,
  if◌then◌else◌, length, take, drop, bytes,
}
use rssdisk.Base.Words.{add_i32, i32→size, add_size}
use rssdisk.Bitbase.{numeric_to_chars, chars_to_numeric}
use rssdisk.MapTime.{Clock, MapTime, TimedVal, steady_clock_to_time_t, time_t_to_steady_clock}
use rssdisk.MapTime

pub record Item : Type 0 where
  pub content : List ℕ
  pub checksum : ℕ
  pub timestamp : ℕ

abbrev pub DataStore : Type 0
DataStore = MapTime (List ℕ) Item

-- Where the loop of `insert` stands.
pub record Cursor : Type 0 where
  pub pos : ℕ
  pub ok : Bool
  pub store : DataStore

-- `bitbase::chars_to_numeric(d.substr(pos, w), n)`, `pos` being an int32_t.
abbrev pub number_at : ℕ → List ℕ → ℕ → ℕ
number_at w d pos = chars_to_numeric w (take w (drop (i32→size pos) d))

-- `d.substr(pos, n)`, both being int32_t.
abbrev pub bytes_at : List ℕ → ℕ → ℕ → List ℕ
bytes_at d pos n = take (i32→size n) (drop (i32→size pos) d)

-- `if (_item.content.empty()) erase else insert`, by the content.
unfoldable pub change_entry : Clock → List ℕ → Item → ℕ → List ℕ → DataStore → DataStore
change_entry c key item ttl [] s = MapTime.erase key s
change_entry c key item ttl (x ∷ xs) s = MapTime.insert c key item ttl s

-- `if (!_key.empty()) { … ok = true; }`, by the key.
unfoldable pub apply_record : Clock → List ℕ → Item → ℕ → Cursor → Cursor
unfolding change_entry
apply_record c [] item ttl cur = cur
apply_record c (b ∷ key) item ttl cur = record cur {
  ok = true;
  store = change_entry c (b ∷ key) item ttl item.content cur.store;
}

-- A record as the loop of `insert` reads it at `pos`: the fixed part of 28 bytes holds the timestamp,
-- the checksum, the ttl and two sizes, then stand the key and the content.
abbrev pub ttl_at : List ℕ → ℕ → ℕ
ttl_at d pos = number_at 4 d (add_i32 pos 16)

abbrev pub header_bytes_at : List ℕ → ℕ → ℕ
header_bytes_at d pos = number_at 4 d (add_i32 pos 20)

abbrev pub content_bytes_at : List ℕ → ℕ → ℕ
content_bytes_at d pos = number_at 4 d (add_i32 pos 24)

abbrev pub after_key : List ℕ → ℕ → ℕ
after_key d pos = add_i32 (add_i32 pos 28) (header_bytes_at d pos)

abbrev pub after_content : List ℕ → ℕ → ℕ
after_content d pos = add_i32 (after_key d pos) (content_bytes_at d pos)

abbrev pub key_at : List ℕ → ℕ → List ℕ
key_at d pos = bytes_at d (add_i32 pos 28) (header_bytes_at d pos)

abbrev pub item_at : List ℕ → ℕ → Item
item_at d pos = record {
  content = bytes_at d (after_key d pos) (content_bytes_at d pos);
  checksum = number_at 8 d (add_i32 pos 8);
  timestamp = number_at 8 d pos;
}

-- The body of the loop of `insert`, once the fixed part is known to be there.
unfoldable pub insert_round : Clock → List ℕ → Cursor → Cursor
insert_round c d cur =
    if leb (i32→size (after_key d cur.pos)) (length d)
    then if leb (i32→size (after_content d cur.pos)) (length d)
      then apply_record c (key_at d cur.pos) (item_at d cur.pos) (ttl_at d cur.pos)
          (record cur { pos = after_content d cur.pos })
      else record cur { pos = after_key d cur.pos }
    else record cur { pos = add_i32 cur.pos 28 }

unfoldable pub insert_loop : ℕ → Clock → List ℕ → Cursor → Option Cursor
insert_loop zero c d cur = none
insert_loop (suc fuel) c d cur =
    let rest = insert_loop fuel c d (insert_round c d cur) in
    if ltb (i32→size (add_i32 cur.pos 28)) (length d) then rest else some cur

-- The new store and the result.
unfoldable pub insert : ℕ → Clock → List ℕ → DataStore → Option Cursor
insert fuel c d s = insert_loop fuel c d (record { pos = 0; ok = false; store = s })

unfoldable pub found_item : Option Item → Option (List ℕ)
found_item none = none
found_item (some i) =
    some (numeric_to_chars 8 i.timestamp ++ (numeric_to_chars 8 i.checksum ++ i.content))

unfoldable pub retrieve : Clock → List ℕ → DataStore → Option (List ℕ)
unfolding found_item
retrieve c k s = found_item (MapTime.get c k s)

unfoldable pub clear_all : Clock → DataStore → DataStore
clear_all c s = MapTime.clear_ttl c s

-- The predicate is given the timestamp and the checksum.
unfoldable pub remove_if : List ℕ → (ℕ → ℕ → Bool) → DataStore → DataStore
remove_if key pred s = MapTime.remove_if key (λ it. pred it.timestamp it.checksum) s

unfoldable pub generate_key : List ℕ → List ℕ
generate_key key = numeric_to_chars 4 (length key % 2 ^ 32) ++ key

-- `dataStore.serialize_function` without the size in front.
unfoldable pub item_body : Clock → List ℕ × TimedVal Item → List ℕ
item_body c (k, v) =
    numeric_to_chars 4 (length k % 2 ^ 32)
    ++ (k
        ++ (numeric_to_chars 8 (steady_clock_to_time_t c v.valid_until)
            ++ (numeric_to_chars 8 v.val.timestamp
                ++ (numeric_to_chars 8 v.val.checksum
                    ++ (numeric_to_chars 4 (length v.val.content % 2 ^ 32) ++ v.val.content)))))

unfoldable pub serialize_item : Clock → List ℕ × TimedVal Item → List ℕ
unfolding item_body
serialize_item c it = numeric_to_chars 4 (length (item_body c it) % 2 ^ 32) ++ item_body c it

-- `dataStore.deserialize_function`; `some` where it returns true. The position is a size_t.
unfoldable pub deserialize_item : Clock → List ℕ → Option (List ℕ × TimedVal Item)
deserialize_item c d =
    let key_size = chars_to_numeric 4 (take 4 d) in
    let start = add_size 4 (i32→size key_size) in
    let valid_to = chars_to_numeric 8 (take 8 (drop start d)) in
    let timestamp = chars_to_numeric 8 (take 8 (drop (start + 8) d)) in
    let checksum = chars_to_numeric 8 (take 8 (drop (start + 16) d)) in
    let data_size = chars_to_numeric 4 (take 4 (drop (start + 24) d)) in
    let valid_until = time_t_to_steady_clock c valid_to in
    let item : Item = record {
      content = take (i32→size data_size) (drop (start + 28) d);
      checksum = checksum;
      timestamp = timestamp;
    } in
    let result : Option (List ℕ × TimedVal Item) =
      some
        (take (i32→size key_size) (drop 4 d), record { val = item; valid_until = valid_until }) in
    if ltb 4 (length d)
    then if leb start (length d)
      then if ltb (start + 28) (length d)
        then if leb (add_size (start + 28) (i32→size data_size)) (length d)
          then if ltb c.steady valid_until then result else none
          else none
        else none
      else none
    else none

unfoldable pub serialize_data : Clock → DataStore → List ℕ
serialize_data c s = MapTime.serialize (some (serialize_item c)) s

unfoldable pub deserialize_data : ℕ → Clock → List ℕ → DataStore → Option DataStore
deserialize_data fuel c d s = MapTime.deserialize fuel (some (deserialize_item c)) d s
