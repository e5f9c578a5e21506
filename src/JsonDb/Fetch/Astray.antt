-- ===== src/JsonDb/Fetch/Astray.antt =====
-- A bound that no entry has: where the search steps down past it, `retrieveCursor` answers the cursor
-- of the first greater entry with the document of the entry before it.
use rssdisk.Base.{ℕ, ◌^◌, ◌<◌, ◌≡◌, refl, ◌∙◌, List, [], ◌∷◌, true, false, none, arith}
use rssdisk.Base.Words.{ltb_i64}
use rssdisk.Base.Dict.{emplace}
use rssdisk.JsonDb.Index.{
  Search, gte, start, step_above, step_below, search_round, search_all, retrieve_cursor,
}
use rssdisk.JsonDb.Index.Entries.{Entry, Fits, pack, holding}
use rssdisk.JsonDb.Index.Rounds.{
  Given, count_below, behind, round_low, round_high, search_loop-again, search_loop-stop,
}
use rssdisk.JsonDb.Index.Landing.{seen}
use rssdisk.JsonDb.Index.Settled.{retrieve_cursor_lem}
use rssdisk.JsonDb.Query.{Query, TypeOperation, new_query, in_bounds}
use rssdisk.JsonDb.Fetch.Scan.{selects}
use rssdisk.JsonDb.Fetch.{add_up, add_found, fetch_above, fetch_op, fetch_indexed_data}

-- The query "$gte" for a value.
abbrev pub from_value : ℕ → Query
from_value val = record new_query { op = TypeOperation.gte; min = val }

module _ (x y : Entry) (val : ℕ) (x_fits : Fits x) (y_fits : Fits y) (val_fits : val < 2 ^ 64)
    (below : ltb_i64 x.i val ≡ true) (above : ltb_i64 val y.i ≡ true) where
  abbrev two : List Entry
  two = x ∷ y ∷ []

  given : Given two val
  given = record {
    fits = (x_fits, (y_fits, tt));
    small = omega arith;
    sorted = ((ground (arith, below, above), tt), (tt, tt));
    val_fits = val_fits;
  }

  first : count_below two val ≡ 1
  first = ground (arith, below, above)

  last : behind two val ≡ 1
  last = ground (arith, below, above)

  abbrev turned : Search
  turned = record (seen two val given gte (start 2)) { step_down = true; at = 0 }

  abbrev ended : Search
  ended = record turned {
    f = record (holding x turned.f) { cursor = 1; found = true };
    at = 1;
    again = false;
  }

  down : search_round (pack two) val gte 2 (start 2) ≡ turned
  unfolding step_below
  down = round_high two val given gte (start 2) (omega arith) (omega (arith, last)) ∙ refl

  up : search_round (pack two) val gte 2 turned ≡ ended
  unfolding step_above
  up = round_low two val given gte turned (omega arith) (omega (arith, first)) ∙ refl

  search : search_all (pack two) val gte 2 ≡ ended
  unfolding search_all
  search =
      search_loop-again (pack two) val gte 2 9999 (start 2) (rw down)
      ∙ rw down (search_loop-stop (pack two) val gte 2 9998 turned (rw up) ∙ up)

  cursor : retrieve_cursor (pack two) val gte ≡ ended.f
  cursor = retrieve_cursor_lem two val gte (omega arith) ∙ rw search

  -- In an index of two entries, one below and one above the limit of a query with "$gte", the
  -- document below the limit is found and the one above it is not. The numbers fit their
  -- fields.
  pub fetch_indexed_data-gte :
      (fetch_indexed_data (from_value val) (pack two) none ≡ (x.offset, x.size) ∷ [])
      × (selects TypeOperation.gte (from_value val) x.i ≡ false)
      × (selects TypeOperation.gte (from_value val) y.i ≡ true)
  unfolding fetch_indexed_data fetch_op fetch_above add_up add_found emplace in_bounds
  fetch_indexed_data-gte = (rw cursor, ground (arith, below), ground (arith, above))
