-- ===== src/Streamer.antt =====
-- libs/streamer.h: the class `streamer`, which packs values one behind the other and reads them back.
-- A variable that is read into is 0 or empty before. Left out are the floating point numbers, the
-- tuples, the dates and the JSON values, whose texts the other operators carry.
pub mod Fields
pub mod RoundTrip
pub mod Examples
use mathlib.Core.Option
use rssdisk.Base.{
  Option, some, none, ℕ, zero, suc, ◌+◌, ◌-◌, ◌%◌, ◌^◌, List, [], ◌∷◌, ◌++◌, Bool, true, false, ltb,
  leb, ◌==◌, if◌then◌else◌, length, take, drop, min,
}
use rssdisk.Base.Words.{add_size}
use rssdisk.Bitbase.{radix, numeric_to_chars, chars_to_numeric, comress_list, uncomress_list}

pub record Streamer : Type 0 where
  pub bytes : List ℕ
  pub read_pos : ℕ

-- `set(d)`.
abbrev pub holding : List ℕ → Streamer
holding d = record { bytes = d; read_pos = 0 }

-- `get(_get_type::string)`.
unfoldable pub get_string : Streamer → List ℕ
get_string s = numeric_to_chars 8 (length s.bytes) ++ s.bytes

-- `get(_get_type::compress)`.
unfoldable pub get_compressed : (List ℕ → List ℕ) → Streamer → List ℕ
get_compressed compress_string s =
    numeric_to_chars 8 (length (compress_string s.bytes)) ++ compress_string s.bytes

-- `append(d)`.
abbrev pub append : List ℕ → Streamer → Streamer
append d s = record s { bytes = s.bytes ++ d }

-- `operator<<` of an integer of w bytes.
unfoldable pub put_number : ℕ → ℕ → Streamer → Streamer
put_number w n s = append (numeric_to_chars w n) s

-- `operator<<` of a string, whose size has b bytes: what is longer is cut.
unfoldable pub put_text : ℕ → List ℕ → Streamer → Streamer
put_text b v s =
    let max_sz = radix b - 1 in
    append (numeric_to_chars b (min (length v) max_sz) ++ take max_sz v) s

-- `operator<<` of a container of integers of w bytes, in its order.
unfoldable pub put_list : ℕ → List ℕ → Streamer → Streamer
put_list w xs s = append (numeric_to_chars 8 (length (comress_list w xs)) ++ comress_list w xs) s

-- `operator<<` of a streamer.
unfoldable pub put_streamer : Streamer → Streamer → Streamer
unfolding get_string
put_streamer t s = append (get_string t) s

-- `for (it : v) data += it.get(_get_type::string)`.
unfoldable pub strings_of : List Streamer → List ℕ
strings_of [] = []
strings_of (t ∷ ts) = get_string t ++ strings_of ts

-- `operator<<` of a vector of streamers.
unfoldable pub put_streamers : List Streamer → Streamer → Streamer
put_streamers ts s = append (numeric_to_chars 8 (length ts) ++ strings_of ts) s

-- `data.size() >= read_pos + n`.
abbrev pub has : ℕ → Streamer → Bool
has n s = leb (add_size s.read_pos n) (length s.bytes)

-- `data.substr(read_pos, n)`.
abbrev pub next_bytes : ℕ → Streamer → List ℕ
next_bytes n s = take n (drop s.read_pos s.bytes)

abbrev pub advanced : ℕ → Streamer → Streamer
advanced n s = record s { read_pos = add_size s.read_pos n }

-- `operator>>` of an integer of w bytes.
unfoldable pub get_number : ℕ → Streamer → ℕ × Streamer
get_number w s = if has w s then (chars_to_numeric w (next_bytes w s), advanced w s) else (0, s)

-- `operator>>` of a string, and `fetch_string`.
unfoldable pub get_text : ℕ → Streamer → List ℕ × Streamer
get_text b s =
    let sz_str = chars_to_numeric 8 (next_bytes b s) in
    let behind = advanced b s in
    if has b s
    then (if leb (add_size behind.read_pos sz_str) (length s.bytes)
        then (next_bytes sz_str behind, advanced sz_str behind)
        else ([], s))
    else ([], s)

-- The set that is read from n bytes; where `uncomress_list` does not end there is none.
abbrev pub list_of : ℕ → ℕ → Streamer → Option (List ℕ × Streamer)
list_of w zero s = some ([], s)
list_of w (suc n) s =
    if has (suc n) s
    then Option.map (λ xs. (xs, advanced (suc n) s)) (uncomress_list w (next_bytes (suc n) s))
    else some ([], s)

-- `operator>>` of a set of integers of w bytes.
unfoldable pub get_list : ℕ → Streamer → Option (List ℕ × Streamer)
get_list w s = let sized = get_number 8 s in list_of w sized.0 sized.1

-- `operator>>` of a streamer.
unfoldable pub get_streamer : Streamer → Streamer × Streamer
get_streamer s = let read = get_text 8 s in (holding read.0, read.1)

-- `for (i = 0; i < sz; ++i)`.
unfoldable pub get_streamer_list : ℕ → Streamer → List Streamer × Streamer
get_streamer_list zero s = ([], s)
get_streamer_list (suc n) s =
    let read = get_streamer s in let rest = get_streamer_list n read.1 in (read.0 ∷ rest.0, rest.1)

-- `operator>>` of a vector of streamers.
unfoldable pub get_streamers : Streamer → List Streamer × Streamer
get_streamers s = let sized = get_number 8 s in get_streamer_list sized.0 sized.1

-- `_skip::type`.
pub data Skip : Type 0 where
  none_skip : Skip
  byte_skip : Skip
  string_skip : Skip
  date_time_skip : Skip
  int16_skip : Skip
  int32_skip : Skip
  int64_skip : Skip

-- How many bytes are passed.
abbrev pub skip_size : Skip → Streamer → ℕ
skip_size none_skip s = 0
skip_size byte_skip s = 1
skip_size int16_skip s = 2
skip_size int32_skip s = 4
skip_size int64_skip s = 8
skip_size string_skip s = if has 8 s then add_size 8 (chars_to_numeric 8 (next_bytes 8 s)) else 0
skip_size date_time_skip s = 8

-- `operator>>` of a skip.
unfoldable pub skip : Skip → Streamer → Streamer
skip k s = let sz = skip_size k s in if has sz s then advanced sz s else s

-- `get_bytes(n)`, which returns nothing where there are too few.
unfoldable pub get_bytes : ℕ → Streamer → List ℕ × Streamer
get_bytes n s = if has n s then (next_bytes n s, advanced n s) else ([], s)
