-- ===== src/JsonDb/Index.antt =====
-- rssdisk/rssdisk/extentions/j_manager.cpp: `IndexUtility`. An index is a string of entries of 16
-- bytes: the value of 8 bytes, the offset and the size of the document, 4 bytes each.
pub mod Entries
pub mod Sorted
pub mod Rounds
pub mod Landing
pub mod Halving
pub mod Cursor
pub mod Settled
pub mod Insert
pub mod Examples
use rssdisk.Base.{
  ℕ, zero, suc, ◌+◌, ◌-◌, ◌*◌, ◌/◌, ◌%◌, ◌^◌, List, [], ◌∷◌, ◌++◌, Bool, true, false, not, ◌&&◌,
  ◌||◌, ltb, leb, ◌==◌, if◌then◌else◌, length, take, drop,
}
use rssdisk.Base.Words.{add_size, ltb_i64}
use rssdisk.Bitbase.{numeric_to_chars, chars_to_numeric}

-- `b_base::type`.
pub data FieldType : Type 0 where
  none_type : FieldType
  numeric : FieldType
  date : FieldType
  text : FieldType

pub record BBase : Type 0 where
  pub tp : FieldType
  pub offset : ℕ
  pub size : ℕ
  pub rebuilded : Bool

-- `search::index`.
pub record Index : Type 0 where
  pub i : ℕ
  pub dd : BBase
  pub cursor : ℕ
  pub max_cursor : ℕ
  pub found : Bool
  pub found_ultima : Bool
  pub is_lower : Bool

abbrev pub new_index : Index
new_index = record {
  i = 0;
  dd = record { tp = numeric; offset = 0; size = 0; rebuilded = false };
  cursor = 0;
  max_cursor = 0;
  found = false;
  found_ultima = false;
  is_lower = false;
}

-- `type_search_index`.
pub data SearchOp : Type 0 where
  compare : SearchOp
  lte : SearchOp
  gte : SearchOp
  lt : SearchOp
  gt : SearchOp

abbrev pub is_low : SearchOp → Bool
is_low lte = true
is_low lt = true
is_low compare = false
is_low gte = false
is_low gt = false

abbrev pub is_high : SearchOp → Bool
is_high gte = true
is_high gt = true
is_high compare = false
is_high lte = false
is_high lt = false

-- size_t - size_t.
abbrev pub sub_size : ℕ → ℕ → ℕ
sub_size a b = (a + 2 ^ 64 - b) % 2 ^ 64

-- What the loop of `extractIndex` keeps: `data`, `n`, the index, and whether it broke off.
pub record Extract : Type 0 where
  pub bytes : List ℕ
  pub field : ℕ
  pub index : Index
  pub stopped : Bool

extract_byte : ℕ → Extract → Extract
extract_byte c s =
    let data' = s.bytes ++ c ∷ [] in
    if s.field == 0
    then (if length data' == 8
        then record {
          bytes = [];
          field = 1;
          index = record (s.index) { i = chars_to_numeric 8 data' };
          stopped = false;
        }
        else record s { bytes = data' })
    else if s.field == 1
    then (if length data' == 4
        then record {
          bytes = [];
          field = 2;
          index = record (s.index) {
            dd = record (s.index.dd) { offset = chars_to_numeric 4 data' };
          };
          stopped = false;
        }
        else record s { bytes = data' })
    else if s.field == 2
    then (if length data' == 4
        then record {
          bytes = [];
          field = 2;
          index = record (s.index) { dd = record (s.index.dd) { size = chars_to_numeric 4 data' } };
          stopped = true;
        }
        else record s { bytes = data' })
    else record s { bytes = data' }

-- `for (; i < index.size() && j > 0; ++i, --j)` over what stands from i on.
extract_loop : ℕ → List ℕ → Extract → Extract
extract_loop zero t s = s
extract_loop (suc j) [] s = s
extract_loop (suc j) (c ∷ t) s =
    let rest = extract_loop j t (extract_byte c s) in if s.stopped then s else rest

abbrev pub cleared : Index → Index
cleared d = record d { i = 0; dd = record (d.dd) { offset = 0; size = 0 } }

unfoldable pub extract_index : List ℕ → ℕ → Index → Index
unfolding extract_loop extract_byte
extract_index index cursor d =
    let from = cursor * 16 % 2 ^ 64 in
    if ltb from (length index)
    then (extract_loop 16 (drop from index)
        (record { bytes = []; field = 0; index = cleared d; stopped = false })).index
    else cleared d

-- The locals of the loop of `retrieveCursor`.
pub record Search : Type 0 where
  pub f : Index
  pub at : ℕ
  pub prev : ℕ
  pub step_up : Bool
  pub step_down : Bool
  pub equal : Bool
  pub again : Bool

-- `f.i < val`.
unfoldable pub step_above : SearchOp → ℕ → Search → Search
step_above op max_cursor s =
    if s.step_down
    then record s {
      f =
          if is_high op
          then record (s.f) { cursor = add_size s.at 1; found = true }
          else if is_low op
          then record (s.f) { cursor = s.at; found = true }
          else s.f;
      at = if is_high op then add_size s.at 1 else s.at;
      again = false;
    }
    else if ltb 5 (sub_size max_cursor s.at)
    then record s { prev = s.at; at = add_size s.at (sub_size max_cursor s.at / 2) }
    else if add_size s.at 1 == max_cursor
    then record s {
      prev = s.at;
      step_up = true;
      at = if is_low op then s.at else add_size s.at 1;
      f = if is_low op then record (s.f) { cursor = s.at; found = true } else s.f;
      again = false;
    }
    else record s { prev = s.at; step_up = true; at = add_size s.at 1 }

-- `f.i > val`.
unfoldable pub step_below : SearchOp → Search → Search
step_below op s =
    if s.step_up
    then record s {
      f =
          if is_low op
          then record (s.f) { cursor = sub_size s.at 1; found = true }
          else if is_high op
          then record (s.f) { cursor = s.at; found = true }
          else s.f;
      at = if is_low op then sub_size s.at 1 else s.at;
      again = false;
    }
    else if ltb 5 (sub_size s.at s.prev)
    then record s { at = add_size s.prev (sub_size s.at s.prev / 2) }
    else if s.at == 0
    then record s {
      step_down = true;
      f =
          if is_high op
          then record (s.f) { is_lower = true; cursor = s.at; found = true }
          else record (s.f) { is_lower = true };
      again = false;
    }
    else record s { step_down = true; at = sub_size s.at 1 }

-- One round of the loop: `again` tells whether another follows.
unfoldable pub search_round : List ℕ → ℕ → SearchOp → ℕ → Search → Search
unfolding step_above step_below
search_round index val op max_cursor s =
    let f' = extract_index index s.at s.f in
    if f'.i == val
    then record s { f = record f' { cursor = s.at; found = true }; equal = true; again = false }
    else if ltb_i64 f'.i val
    then step_above op max_cursor (record s { f = f' })
    else step_below op (record s { f = f' })

-- `for (i = 0u; i < 10000; ++i)`, by the rounds left.
unfoldable pub search_loop : ℕ → List ℕ → ℕ → SearchOp → ℕ → Search → Search
unfolding search_round
search_loop zero index val op max_cursor s = s
search_loop (suc rounds) index val op max_cursor s =
    let s' = search_round index val op max_cursor s in
    let rest = search_loop rounds index val op max_cursor s' in if s'.again then rest else s'

-- `for (; f.cursor < f.max_cursor; ++f.cursor)`, by the rounds left.
unfoldable pub walk_up : ℕ → List ℕ → ℕ → SearchOp → Index → Index
walk_up zero index val op f = f
walk_up (suc rounds) index val op f =
    let g = extract_index index f.cursor f in
    let back : Index = elim op [ lte ↦ record g { cursor = g.cursor - 1 } | _ ↦ g ] in
    let rest = walk_up rounds index val op (record g { cursor = g.cursor + 1 }) in
    if ltb f.cursor f.max_cursor
    then (if g.i == val then rest else extract_index index back.cursor back)
    else f

-- `while (f.cursor > 0)`.
unfoldable pub walk_down : ℕ → List ℕ → ℕ → SearchOp → Index → Index
walk_down zero index val op f = f
walk_down (suc c) index val op f =
    let g = extract_index index c (record f { cursor = c }) in
    let back : Index = elim op [ gte ↦ record g { cursor = g.cursor + 1 } | _ ↦ g ] in
    let rest = walk_down c index val op g in
    if g.i == val then rest else extract_index index back.cursor back

-- What follows the loop if it found the value: the end of its run that the search is for.
unfoldable pub settle : List ℕ → ℕ → SearchOp → Index → Index
unfolding walk_up walk_down
settle index val compare f = f
settle index val lte f =
    let next = add_size f.cursor 1 in
    if ltb next f.max_cursor
    then walk_up (f.max_cursor - next) index val lte (record f { cursor = next })
    else record f { cursor = sub_size next 1 }
settle index val gt f =
    let next = add_size f.cursor 1 in
    let g =
      if ltb next f.max_cursor
      then walk_up (f.max_cursor - next) index val gt (record f { cursor = next })
      else record f { cursor = sub_size next 1 } in
    if g.i == val then record g { found_ultima = true; found = false } else g
settle index val gte f = walk_down f.cursor index val gte f
settle index val lt f =
    let g = walk_down f.cursor index val lt f in
    if g.i == val then record g { found_ultima = true; found = false } else g

abbrev pub start : ℕ → Search
start max_cursor = record {
  f = record new_index { max_cursor = max_cursor };
  at = max_cursor / 2;
  prev = 0;
  step_up = false;
  step_down = false;
  equal = false;
  again = true;
}

-- All of the loop.
unfoldable pub search_all : List ℕ → ℕ → SearchOp → ℕ → Search
search_all index val op max_cursor = search_loop 10000 index val op max_cursor (start max_cursor)

unfoldable pub retrieve_cursor : List ℕ → ℕ → SearchOp → Index
retrieve_cursor index val op =
    let max_cursor = length index / 16 in
    let s = if length index == 0 then start max_cursor else search_all index val op max_cursor in
    if s.equal then settle index val op s.f else s.f

-- The 16 bytes of an entry.
unfoldable pub entry_bytes : ℕ → ℕ → ℕ → List ℕ
entry_bytes i offset size =
    numeric_to_chars 8 i ++ (numeric_to_chars 4 offset ++ numeric_to_chars 4 size)

unfoldable pub add_to_index : List ℕ → ℕ → ℕ → ℕ → List ℕ
add_to_index index i offset size =
    let f = retrieve_cursor index i lt in
    let pos =
      if f.found || f.found_ultima
      then add_size f.cursor 1 * 16 % 2 ^ 64
      else if f.is_lower
      then 0
      else length index in
    take pos index ++ (entry_bytes i offset size ++ drop pos index)

unfoldable pub calculate_index_size : List ℕ → ℕ
calculate_index_size index = length index / 16

-- `for (; cursor < max_cursor; ++cursor)`, by the rounds left.
fetch_from : ℕ → List ℕ → ℕ → List Index
unfolding extract_index
fetch_from zero index cursor = []
fetch_from (suc rounds) index cursor =
    extract_index index cursor new_index ∷ fetch_from rounds index (cursor + 1)

unfoldable pub fetch_all_indexed_data : List ℕ → List Index
unfolding fetch_from
fetch_all_indexed_data index = fetch_from (length index / 16) index 0
