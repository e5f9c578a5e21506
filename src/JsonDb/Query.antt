-- ===== src/JsonDb/Query.antt =====
-- rssdisk/rssdisk/extentions/b_tree.cpp: `b_tree`, the queries on JSON documents. A JSON value is
-- what the library answers of it; the calendar and std::hash are parameters too.
pub mod Bounds
pub mod Examples
use rssdisk.Base.{
  ℕ, zero, suc, ◌+◌, ◌-◌, ◌^◌, ◌≡◌, refl, List, [], ◌∷◌, ◌++◌, Bool, true, false, not, ◌&&◌, ◌||◌,
  Option, none, some, ltb, leb, ◌==◌, if◌then◌else◌, length, take, bytes_eq, bytes,
}
use rssdisk.Base.Dict.{find, emplace}
use rssdisk.Base.Words.{ltb_i64, i32→size}
use rssdisk.Server.Text.{decimal}
use rssdisk.JsonDb.Index.{FieldType, none_type, numeric, date, text}

-- `date_time_sel`, as `parse_date_time` is called.
pub data DatePart : Type 0 where
  date_and_time : DatePart
  date_only : DatePart
  time_only : DatePart

-- Json::Value, as the code calls it. Numbers are bit patterns, `as_int` of 32 bits.
pub record Json : Type 1 where
  pub Value : Type 0
  pub is_object : Value → Bool
  pub is_array : Value → Bool
  pub is_string : Value → Bool
  pub is_int : Value → Bool
  pub is_int64 : Value → Bool
  pub as_int : Value → ℕ
  pub as_int64 : Value → ℕ
  pub is_member : Value → List ℕ → Bool
  pub member : Value → List ℕ → Value
  pub member_names : Value → List (List ℕ)
  pub items : Value → List Value
  pub to_string : Value → List ℕ
  pub is_bool : Value → Bool
  pub as_bool : Value → Bool
  pub as_string : Value → List ℕ
  pub null : Value
  -- `Json::Reader().parse`, `none` where it fails or throws.
  pub parse : List ℕ → Option Value
  -- `dt.parse_date_time(s, format, sel)`, and then `dt.get_time_from_epoch()`.
  pub epoch : DatePart → List ℕ → Option ℕ
  -- std::hash of a string.
  pub hash : List ℕ → ℕ

-- `search::type_operation`.
pub data TypeOperation : Type 0 where
  compare : TypeOperation
  lte : TypeOperation
  gte : TypeOperation
  lt : TypeOperation
  gt : TypeOperation
  range_lte_gte : TypeOperation
  range_lt_gte : TypeOperation
  range_lte_gt : TypeOperation
  range_lt_gt : TypeOperation

abbrev pub is_compare : TypeOperation → Bool
is_compare compare = true
is_compare lte = false
is_compare gte = false
is_compare lt = false
is_compare gt = false
is_compare range_lte_gte = false
is_compare range_lt_gte = false
is_compare range_lte_gt = false
is_compare range_lt_gt = false

pub record ValSearch : Type 0 where
  pub indexed : List ℕ
  pub base : List ℕ

-- `b_tree::search`.
pub record Query : Type 0 where
  pub op : TypeOperation
  pub tp : FieldType
  pub i : List ValSearch
  pub is_indexed : Bool
  pub min : ℕ
  pub max : ℕ

-- The least and the greatest int64_t.
abbrev pub new_query : Query
new_query = record {
  op = compare;
  tp = numeric;
  i = [];
  is_indexed = false;
  min = 2 ^ 63;
  max = 2 ^ 63 - 1;
}

-- `std::to_string` of an int64_t.
unfoldable pub to_string_i64 : ℕ → List ℕ
unfolding decimal
to_string_i64 n = if ltb n (2 ^ 63) then decimal n else 45 ∷ decimal (2 ^ 64 - n)

-- `basefunc_std::removeAll`: the search goes on one behind the place of the erased character.
unfoldable pub remove_all : ℕ → List ℕ → List ℕ
remove_all q [] = []
remove_all q (x ∷ []) = if x == q then [] else x ∷ []
remove_all q (x ∷ y ∷ s) =
    let skip = y ∷ remove_all q s in
    let next = x ∷ remove_all q (y ∷ s) in if x == q then skip else next

-- `basefunc_std::replaceAll` of one character by another.
replace_char : ℕ → ℕ → List ℕ → List ℕ
replace_char q r [] = []
replace_char q r (x ∷ s) = (if x == q then r else x) ∷ replace_char q r s

-- "$date", "$in", "$lt", "$lte", "$gt", "$gte".
abbrev pub key_date : List ℕ
key_date = 36 ∷ 100 ∷ 97 ∷ 116 ∷ 101 ∷ []

abbrev pub key_in : List ℕ
key_in = 36 ∷ 105 ∷ 110 ∷ []

abbrev pub key_lt : List ℕ
key_lt = 36 ∷ 108 ∷ 116 ∷ []

abbrev pub key_lte : List ℕ
key_lte = 36 ∷ 108 ∷ 116 ∷ 101 ∷ []

abbrev pub key_gt : List ℕ
key_gt = 36 ∷ 103 ∷ 116 ∷ []

abbrev pub key_gte : List ℕ
key_gte = 36 ∷ 103 ∷ 116 ∷ 101 ∷ []

abbrev pub with_gt : TypeOperation → TypeOperation
with_gt op = elim op [ lt ↦ range_lt_gt | lte ↦ range_lte_gt | _ ↦ gt ]

abbrev pub with_gte : TypeOperation → TypeOperation
with_gte op = elim op [ lt ↦ range_lt_gte | lte ↦ range_lte_gte | _ ↦ gte ]

abbrev is_date : FieldType → Bool
is_date date = true
is_date none_type = false
is_date numeric = false
is_date text = false

abbrev is_text : FieldType → Bool
is_text text = true
is_text none_type = false
is_text numeric = false
is_text date = false

abbrev pub is_none : FieldType → Bool
is_none none_type = true
is_none numeric = false
is_none date = false
is_none text = false

module _ (j : Json) where
  open j use {
    Value, is_object, is_array, is_string, is_int, is_int64, as_int, as_int64, is_member, member,
    member_names, items, to_string, epoch, hash,
  }

  date_text : Value → List ℕ
  date_text val =
      if is_string val
      then to_string val
      else if is_object val && (is_member val key_date && is_string (member val key_date))
      then to_string (member val key_date)
      else []

  -- By the length of the text, which form of a date it is.
  epoch_of : List ℕ → Option ℕ
  epoch_of cutted =
      if length cutted == 19
      then epoch date_and_time cutted
      else if length cutted == 10
      then epoch date_only cutted
      else if length cutted == 8
      then epoch time_only cutted
      else if length cutted == 5
      then epoch time_only cutted
      else none

  -- `try_make_date_index(val, i)`: the new `i`, if it answers true.
  unfoldable pub try_make_date_index : Value → Option ℕ
  unfolding date_text epoch_of remove_all replace_char
  try_make_date_index val =
      let val_str = date_text val in
      if length val_str == 0
      then none
      else epoch_of (replace_char 84 32 (take 19 (remove_all 34 val_str)))

  unfoldable pub try_make_string_index : Value → ℕ
  try_make_string_index val = hash (to_string val)

  of_type : FieldType → ℕ → Option ℕ → FieldType × ℕ
  of_type tp i none = (none_type, i)
  of_type tp i (some v) = (tp, v)

  -- `try_make_index_parameter(val, f, i, tp)`: its answer, and what `i` is then.
  unfoldable pub try_make_index_parameter : Value → List ℕ → ℕ → FieldType → FieldType × ℕ
  unfolding of_type try_make_date_index try_make_string_index
  try_make_index_parameter val f i tp =
      let v = member val f in
      if not (is_member val f)
      then (none_type, i)
      else if is_int v
      then (numeric, i32→size (as_int v))
      else if is_int64 v
      then (numeric, as_int64 v)
      else if is_object v
      then (if is_member v key_date
          then of_type date i (try_make_date_index (member v key_date))
          else (none_type, i))
      else if is_string v
      then (if is_date tp
          then of_type date i (try_make_date_index v)
          else if is_text tp
          then (text, try_make_string_index v)
          else (none_type, i))
      else (none_type, i)

  push : List ℕ → List ℕ → Query → Query
  push indexed base q = record q { i = q.i ++ (record { indexed = indexed; base = base } ∷ []) }

  -- A date, or a text, that a value is compared with.
  push_date : ℕ → Query → Query
  unfolding push to_string_i64
  push_date m q = push (to_string_i64 m) [] (record q { min = m; tp = date })

  push_value : Value → Query → Query
  unfolding push to_string_i64 try_make_string_index
  push_value val q =
      let m = try_make_string_index val in
      if is_string val
      then push (to_string_i64 m) (to_string val) (record q { min = m; tp = text })
      else push (to_string val) [] q

  push_date_value : Value → Query → Query
  unfolding push_date try_make_date_index
  push_date_value d q = elim (try_make_date_index d) [ none ↦ q | some m ↦ push_date m q ]

  -- One value of "$in".
  push_item : Query → Value → Query
  unfolding push_date_value push_value
  push_item q it =
      if is_object it && is_member it key_date
      then push_date_value (member it key_date) q
      else push_value it q

  push_items : Query → List Value → Query
  unfolding push_item
  push_items q [] = q
  push_items q (it ∷ its) = push_items (push_item q it) its

  -- "$lt" and "$lte" set `max`, "$gt" and "$gte" set `min`.
  unfoldable pub upper_bound : List ℕ → TypeOperation → Value → Query → Query
  upper_bound key op val q =
      let r = try_make_index_parameter val key q.max q.tp in
      if is_none r.0 then q else record q { op = op; tp = r.0; max = r.1 }

  unfoldable pub lower_bound : List ℕ → (TypeOperation → TypeOperation) → Value → Query → Query
  lower_bound key op val q =
      let r = try_make_index_parameter val key q.min q.tp in
      if is_none r.0 then q else record q { op = op q.op; tp = r.0; min = r.1 }

  unfoldable pub bounds : Value → Query
  bounds val = lower_bound key_gte with_gte val (
      lower_bound key_gt with_gt val
        (upper_bound key_lte lte val (upper_bound key_lt lt val new_query)))

  date_or_value : Value → Query → Query
  unfolding push_date push_value try_make_date_index
  date_or_value val q =
      if is_member val key_date
      then elim (try_make_date_index (member val key_date)) [
        | none ↦ push_value val q
        | some m ↦ push_date m q
      ]
      else push_value val q

  unfoldable pub f_search_val : Value → Query
  unfolding push_items date_or_value push_value
  f_search_val val =
      let q = bounds val in
      if not (is_object val)
      then push_value val new_query
      else if is_member val key_in && is_array (member val key_in)
      then push_items new_query (items (member val key_in))
      else if is_compare q.op
      then date_or_value val q
      else q

  -- `for (name : s.getMemberNames()) searches.insert(...)`.
  unfoldable pub search_names :
      Value → List (List ℕ) → List (List ℕ × Query) → List (List ℕ × Query)
  search_names s [] searches = searches
  search_names s (name ∷ names) searches =
      search_names s names (emplace name (f_search_val (member s name)) searches)

  unfoldable pub f_search : Value → List (List ℕ × Query) → List (List ℕ × Query)
  f_search s searches = search_names s (member_names s) searches

  -- `f_cmp_one`.
  compare_one : List ValSearch → List ℕ → Bool
  compare_one [] to_cmp = false
  compare_one (v ∷ vs) to_cmp =
      bytes_eq (if length v.base == 0 then v.indexed else v.base) to_cmp || compare_one vs to_cmp

  -- What a value is compared as; a date query takes dates only.
  comparand : FieldType → Value → Option (List ℕ)
  unfolding try_make_date_index to_string_i64
  comparand tp v =
      if is_date tp
      then elim (try_make_date_index v) [ none ↦ none | some m ↦ some (to_string_i64 m) ]
      else some (to_string v)

  -- `for (it_one : item[name])`, with `is_find_one`.
  array_loop : Query → Bool → List Value → Bool
  unfolding comparand compare_one
  array_loop s found [] = found
  array_loop s found (v ∷ vs) = elim (comparand s.tp v) [
    | none ↦ false
    | some c ↦ array_loop s (found || compare_one s.i c) vs
  ]

  compares : Query → Value → Bool
  unfolding array_loop comparand compare_one
  compares s v =
      if is_array v
      then array_loop s false (items v)
      else elim (comparand s.tp v) [ none ↦ false | some c ↦ compare_one s.i c ]

-- Whether `i_type` lies in the bounds of a query that is no comparison.
unfoldable pub in_bounds : TypeOperation → ℕ → ℕ → ℕ → Bool
in_bounds compare min max i = true
in_bounds gt min max i = ltb_i64 min i
in_bounds gte min max i = not (ltb_i64 i min)
in_bounds lt min max i = ltb_i64 i max
in_bounds lte min max i = not (ltb_i64 max i)
in_bounds range_lte_gt min max i = not (ltb_i64 max i || not (ltb_i64 min i))
in_bounds range_lte_gte min max i = not (ltb_i64 max i || ltb_i64 i min)
in_bounds range_lt_gt min max i = not (not (ltb_i64 i max) || not (ltb_i64 min i))
in_bounds range_lt_gte min max i = not (not (ltb_i64 i max) || ltb_i64 i min)

module _ (j : Json) where
  open j use {Value, is_member, member}

  -- One round of the loop of `matching`.
  unfoldable pub matches : Value → List ℕ → Query → Bool
  unfolding compares
  matches item name s =
      let r = try_make_index_parameter j item name 0 s.tp in
      if not (is_member item name)
      then false
      else if is_compare s.op
      then compares j s (member item name)
      else if is_none r.0 || is_text r.0
      then false
      else in_bounds s.op s.min s.max r.1

  unfoldable pub matching : Value → List (List ℕ × Query) → Bool
  matching item [] = true
  matching item ((name, s) ∷ searches) = matches item name s && matching item searches
