-- ===== src/JsonDb/Fetch.antt =====
-- rssdisk/rssdisk/extentions/j_manager.cpp: `IndexUtility::fetchIndexedData`, which looks a query up
-- in an index. It answers a map from the offsets of documents, or of blocks of them, to their sizes.
pub mod Sets
pub mod Loops
pub mod Exact
pub mod Scan
pub mod Astray
pub mod Overrun
pub mod Examples
use rssdisk.Base.{
  ℕ, zero, suc, ◌+◌, ◌-◌, ◌/◌, ◌≡◌, refl, List, [], ◌∷◌, Bool, true, false, not, ◌&&◌, ◌||◌, Option,
  none, some, ltb, leb, ◌==◌, if◌then◌else◌, nat_eq,
}
use rssdisk.Base.Dict.{find, emplace}
use rssdisk.Server.Text.{stoi_i64}
use rssdisk.JsonDb.Index.{
  Index, SearchOp, compare, lte, gte, lt, gt, extract_index, retrieve_cursor,
}
use rssdisk.JsonDb.Query.{Query, TypeOperation, ValSearch}

-- What an earlier index has left, or `nullptr` for the first.
abbrev pub Readed : Type 0
Readed = Option (List (ℕ × ℕ))

abbrev pub is_there : Option ℕ → Bool
is_there none = false
is_there (some n) = true

abbrev pub allowed : Readed → ℕ → Bool
allowed none offset = true
allowed (some m) offset = is_there (find offset m)

-- `f_add`.
unfoldable pub add_found : Readed → Index → List (ℕ × ℕ) → List (ℕ × ℕ)
add_found readed si ret =
    if allowed readed si.dd.offset then emplace si.dd.offset si.dd.size ret else ret

module _ (readed : Readed) (index : List ℕ) where
  -- `for (; f.cursor < f.max_cursor; ++f.cursor)` while the value is `s`, by the rounds left.
  unfoldable pub add_run_up : ℕ → ℕ → Index → List (ℕ × ℕ) → List (ℕ × ℕ)
  add_run_up zero s f ret = ret
  add_run_up (suc rounds) s f ret =
      let g = extract_index index f.cursor f in
      let rest =
        add_run_up rounds s (record g { cursor = g.cursor + 1 }) (add_found readed g ret) in
      if g.i == s then rest else ret

  -- `while (cursor_to_down_check > 0)` while the value is `s`.
  unfoldable pub add_run_down : ℕ → ℕ → Index → List (ℕ × ℕ) → List (ℕ × ℕ)
  add_run_down zero s f ret = ret
  add_run_down (suc c) s f ret =
      let g = extract_index index c f in
      let rest = add_run_down c s g (add_found readed g ret) in if g.i == s then rest else ret

  -- The same without a test, to the end of the index and to its beginning.
  unfoldable pub add_up : ℕ → Index → List (ℕ × ℕ) → List (ℕ × ℕ)
  add_up zero f ret = ret
  add_up (suc rounds) f ret =
      let g = extract_index index f.cursor f in
      add_up rounds (record g { cursor = g.cursor + 1 }) (add_found readed g ret)

  unfoldable pub add_down : ℕ → Index → List (ℕ × ℕ) → List (ℕ × ℕ)
  add_down zero f ret = ret
  add_down (suc c) f ret =
      let g = extract_index index c (record f { cursor = c }) in
      add_down c g (add_found readed g ret)

  -- `while (f.cursor <= f2.cursor)`, by the rounds left.
  unfoldable pub add_range : ℕ → Index → List (ℕ × ℕ) → List (ℕ × ℕ)
  add_range zero f ret = ret
  add_range (suc rounds) f ret =
      add_range rounds (extract_index index (f.cursor + 1) (record f { cursor = f.cursor + 1 }))
        (add_found readed f ret)

  -- One value of a comparison.
  unfoldable pub fetch_value : ℕ → List (ℕ × ℕ) → List (ℕ × ℕ)
  fetch_value s ret =
      let f = retrieve_cursor index s compare in
      let next = record f { cursor = f.cursor + 1 } in
      let up = add_run_up (f.max_cursor - next.cursor) s next (add_found readed f ret) in
      if f.found then add_run_down f.cursor s f up else ret

  unfoldable pub fetch_values : List ValSearch → List (ℕ × ℕ) → List (ℕ × ℕ)
  fetch_values [] ret = ret
  fetch_values (v ∷ vs) ret = fetch_values vs (fetch_value (stoi_i64 v.indexed 0) ret)

  unfoldable pub fetch_above : ℕ → SearchOp → List (ℕ × ℕ)
  fetch_above min op =
      let f = retrieve_cursor index min op in
      let next = record f { cursor = f.cursor + 1 } in
      if f.found then add_up (f.max_cursor - next.cursor) next (add_found readed f []) else []

  unfoldable pub fetch_below : ℕ → SearchOp → List (ℕ × ℕ)
  fetch_below max op =
      let f = retrieve_cursor index max op in
      if f.found then add_down f.cursor f (add_found readed f []) else []

  unfoldable pub fetch_range : ℕ → SearchOp → ℕ → SearchOp → List (ℕ × ℕ)
  fetch_range min op max op2 =
      let f = retrieve_cursor index min op in
      let f2 = retrieve_cursor index max op2 in
      if f.found && f2.found then add_range (suc f2.cursor - f.cursor) f [] else []

  unfoldable pub fetch_op : TypeOperation → Query → List (ℕ × ℕ)
  fetch_op TypeOperation.compare srch = fetch_values srch.i []
  fetch_op TypeOperation.gt srch = fetch_above srch.min gt
  fetch_op TypeOperation.gte srch = fetch_above srch.min gte
  fetch_op TypeOperation.lt srch = fetch_below srch.max lt
  fetch_op TypeOperation.lte srch = fetch_below srch.max lte
  fetch_op TypeOperation.range_lte_gt srch = fetch_range srch.min gt srch.max lte
  fetch_op TypeOperation.range_lt_gt srch = fetch_range srch.min gt srch.max lt
  fetch_op TypeOperation.range_lte_gte srch = fetch_range srch.min gte srch.max lte
  fetch_op TypeOperation.range_lt_gte srch = fetch_range srch.min gte srch.max lt

unfoldable pub fetch_indexed_data : Query → List ℕ → Readed → List (ℕ × ℕ)
fetch_indexed_data srch index readed = fetch_op readed index srch.op srch
