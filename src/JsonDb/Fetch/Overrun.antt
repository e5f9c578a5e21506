-- ===== src/JsonDb/Fetch/Overrun.antt =====
-- A range whose upper end is the value of the entries at the end of the index: `retrieveCursor` may
-- answer a cursor past the end, and the loop over the range then adds what is read there.
use rssdisk.Base.{ℕ, ◌<◌, ◌≡◌, ◌≢◌, refl, ◌∙◌, List, [], ◌∷◌, true, false, none, arith, ◌&&◌, ◌==◌}
use rssdisk.JsonDb.Index.{
  Index, Search, SearchOp, gte, lte, start, search_all, retrieve_cursor, settle, extract_index,
  cleared,
}
use rssdisk.JsonDb.Index.Entries.{Entry, Fits, pack, extract_index-pack, extract_index-pack_end}
use rssdisk.JsonDb.Index.Rounds.{Given, count_below, behind, round_equal, search_loop-stop}
use rssdisk.JsonDb.Index.Cursor.{on, walk_down_gte, walk_up_lte}
use rssdisk.JsonDb.Index.Settled.{retrieve_cursor_lem}
use rssdisk.JsonDb.Query.{Query, TypeOperation, new_query}
use rssdisk.JsonDb.Fetch.{add_range, fetch_range, fetch_op, fetch_indexed_data}
use rssdisk.JsonDb.Fetch.Sets.{any, has, has-add_found}
use rssdisk.JsonDb.Fetch.Scan.{selects}

-- The query "$lte" and "$gte" for one value.
abbrev pub just_value : ℕ → Query
just_value val = record new_query { op = TypeOperation.range_lte_gte; min = val; max = val }

module _ (x y z : Entry) (x_fits : Fits x) (y_fits : Fits y) (z_fits : Fits z) (y_same : y.i ≡ x.i)
    (z_same : z.i ≡ x.i) where
  abbrev three : List Entry
  three = x ∷ y ∷ z ∷ []

  given : Given three x.i
  given = record {
    fits = (x_fits, (y_fits, (z_fits, tt)));
    small = omega arith;
    sorted = (
      (ground (arith, y_same), (ground (arith, z_same), tt)),
      ((ground (arith, y_same, z_same), tt), (tt, tt)),
    );
    val_fits = x_fits.i_fits;
  }

  first : count_below three x.i ≡ 0
  first = ground (arith, y_same, z_same)

  last : behind three x.i ≡ 3
  last = ground (arith, y_same, z_same)

  module _ (op : SearchOp) where
    abbrev met : Search
    met = record (start 3) {
      f = record (on three 1 1 (start 3).f) { found = true };
      equal = true;
      again = false;
    }

    search : search_all (pack three) x.i op 3 ≡ met
    unfolding search_all
    search =
        let e =
          round_equal three x.i given op (start 3) (omega arith) (omega (arith, first))
            (omega (arith, last)) in
        search_loop-stop (pack three) x.i op 3 9999 (start 3) (rw e) ∙ e

    cursor : retrieve_cursor (pack three) x.i op ≡ settle (pack three) x.i op met.f
    cursor = retrieve_cursor_lem three x.i op (omega arith) ∙ rw search

  settled_gte : settle (pack three) x.i gte (met gte).f ≡ on three 0 0 (met gte).f
  unfolding settle
  settled_gte =
      walk_down_gte three x.i given 1 (met gte).f (omega (arith, first)) (omega (arith, last))
      ∙ rw first

  settled_lte : settle (pack three) x.i lte (met lte).f ≡ on three 2 3 (met lte).f
  unfolding settle
  settled_lte =
      walk_up_lte three x.i given 1 1 (met lte).f (omega (arith, first)) (omega (arith, last)) refl
        refl
      ∙ rw last

  -- From entry to entry, and past the last one.
  next_entry :
      (c d : ℕ) (f : Index) → c < 3 → extract_index (pack three) c (on three d c f) ≡ on three c c f
  next_entry c d f h = extract_index-pack three c (on three d c f) given.fits given.small h

  range :
      (f : Index) (ret : List (ℕ × ℕ))
      → has 0 (add_range none (pack three) 4 (on three 0 0 f) ret) ≡ true
  unfolding add_range
  range f ret =
      let past = extract_index-pack_end three 3 (on three 2 3 f) (omega arith) (omega arith) in
      rw (next_entry 1 0 f (omega arith), next_entry 2 1 f (omega arith), past)
        (has-add_found none 0 (record { i = 0; offset = 0; size = 0 }) (cleared (on three 2 3 f)) _
          refl)

  -- In an index of three entries with the same value and offsets that are not 0, a query with
  -- "$gte" and "$lte" for that value finds the offset 0, which no entry has. The numbers fit
  -- their fields.
  pub fetch_indexed_data-range :
      x.offset ≢ 0
      → y.offset ≢ 0
      → z.offset ≢ 0
      → (has 0 (fetch_indexed_data (just_value x.i) (pack three) none) ≡ true)
        × (any
              (λ e. selects TypeOperation.range_lte_gte (just_value x.i) e.i && (e.offset == 0))
              three
            ≡ false)
  unfolding fetch_indexed_data fetch_op fetch_range
  fetch_indexed_data-range hx hy hz =
      (rw (cursor gte ∙ settled_gte, cursor lte ∙ settled_lte) (range (met gte).f []), ground arith)
