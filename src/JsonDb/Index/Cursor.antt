-- ===== src/JsonDb/Index/Cursor.antt =====
-- What `retrieveCursor` answers over an index in order.
use native.Mathlib.Decide.{dec_lt}
use rssdisk.Base.{
  ℕ, zero, suc, ◌+◌, ◌-◌, ◌≤◌, ◌<◌, ◌≡◌, List, true, false, arith, ltb, ◌==◌, if◌then◌else◌, length,
}
use rssdisk.JsonDb.Index.{Index, lte, gte, lt, gt, extract_index, walk_up, walk_down}
use rssdisk.JsonDb.Index.Entries.{Entry, pack, entry_at, holding, extract_index-pack}
use rssdisk.JsonDb.Index.Rounds.{Given, count_below, behind, low_at, high_at, equal_at}
use rssdisk.JsonDb.Index.Landing.{bound}

-- The index object on an entry.
abbrev pub on : List Entry → ℕ → ℕ → Index → Index
on es c cursor f = record (holding (entry_at es c) f) { cursor = cursor }

module _ (es : List Entry) (val : ℕ) (g : Given es val) where
  pub reads :
      (c : ℕ) (d : Index) → c < length es → extract_index (pack es) c d ≡ holding (entry_at es c) d
  reads c d h = extract_index-pack es c d g.fits g.small h

  pub low_differs : (c : ℕ) → c < count_below es val → ((entry_at es c).i == val) ≡ false
  low_differs c h = ground (arith, low_at es val g c h)

  pub high_differs :
      (c : ℕ) → behind es val ≤ c → c < length es → ((entry_at es c).i == val) ≡ false
  high_differs c h k = ground (arith, high_at es val g c h k)

  pub same :
      (c : ℕ) → count_below es val ≤ c → c < behind es val → ((entry_at es c).i == val) ≡ true
  same c h k = ground (arith, equal_at es val g c h k)

  -- Down the run of entries with the value, to the last smaller one.
  pub walk_down_lt :
      (c : ℕ) (f : Index)
      → count_below es val ≤ c
      → c < behind es val
      → walk_down c (pack es) val lt (on es c c f)
        ≡ on es (count_below es val - 1) (count_below es val - 1) f
  unfolding walk_down
  walk_down_lt zero f h k = let e : count_below es val - 1 ≡ 0 = omega arith in rw e
  walk_down_lt (suc c) f h k =
      let inside : c < length es = omega (arith, bound es val g lt) in
      elim (dec_lt c (count_below es val)) [
        | no more ↦
            rw (reads c (on es (suc c) c f) inside, same c (omega arith) (omega arith))
              (walk_down_lt c f (omega arith) (omega arith))
        | yes last ↦
            let e : count_below es val - 1 ≡ c = omega arith in
            rw (reads c (on es (suc c) c f) inside, low_differs c last, e)
              (reads c (on es c c f) inside)
      ]

  -- And to the first entry with it.
  pub walk_down_gte :
      (c : ℕ) (f : Index)
      → count_below es val ≤ c
      → c < behind es val
      → walk_down c (pack es) val gte (on es c c f)
        ≡ on es (count_below es val) (count_below es val) f
  unfolding walk_down
  walk_down_gte zero f h k = let e : count_below es val ≡ 0 = omega arith in rw e
  walk_down_gte (suc c) f h k =
      let inside : c < length es = omega (arith, bound es val g lt) in
      elim (dec_lt c (count_below es val)) [
        | no more ↦
            rw (reads c (on es (suc c) c f) inside, same c (omega arith) (omega arith))
              (walk_down_gte c f (omega arith) (omega arith))
        | yes last ↦
            let e : count_below es val ≡ suc c = omega arith in
            let e' : c + 1 ≡ suc c = omega arith in
            rw (reads c (on es (suc c) c f) inside, low_differs c last, e, e')
              (reads (suc c) (on es c (suc c) f) (omega (arith, bound es val g lt)))
      ]

  -- Up the run to the first greater entry, or past the end.
  pub walk_up_gt :
      (r c : ℕ) (f : Index)
      → count_below es val ≤ c
      → c < behind es val
      → f.max_cursor ≡ length es
      → c + suc r ≡ length es
      → walk_up r (pack es) val gt (on es c (suc c) f) ≡ (
          if ltb (behind es val) (length es)
          then on es (behind es val) (behind es val) f
          else on es (length es - 1) (length es) f)
  unfolding walk_up
  walk_up_gt zero c f h k max e =
      let last : c ≡ length es - 1 = omega arith in
      let end : suc c ≡ length es = omega arith in
      let count_if_none : ltb (behind es val) (length es) ≡ false =
        ground (arith, bound es val g gt) in
      rw count_if_none (rw last (rw (← last, end)))
  walk_up_gt (suc r) c f h k max e =
      let inside : suc c < length es = omega arith in
      let more : ltb (suc c) f.max_cursor ≡ true = ground arith in
      let e' : suc c + 1 ≡ suc (suc c) = omega arith in
      elim (dec_lt (suc c) (behind es val)) [
        | yes on_run ↦
            rw
              (
                reads (suc c) (on es c (suc c) f) inside,
                more,
                same (suc c) (omega arith) on_run,
                e',
              )
              (walk_up_gt r (suc c) f (omega arith) on_run max (omega arith))
        | no over ↦
            let b : behind es val ≡ suc c = omega arith in
            let some_above : ltb (behind es val) (length es) ≡ true = ground arith in
            rw
              (
                reads (suc c) (on es c (suc c) f) inside,
                more,
                high_differs (suc c) (omega arith) inside,
                some_above,
                b,
              )
              (reads (suc c) (on es (suc c) (suc c) f) inside)
      ]

  -- Up the run to its last entry; where the run ends the index, one past it.
  pub walk_up_lte :
      (r c : ℕ) (f : Index)
      → count_below es val ≤ c
      → c < behind es val
      → f.max_cursor ≡ length es
      → c + suc r ≡ length es
      → walk_up r (pack es) val lte (on es c (suc c) f) ≡ (
          if ltb (behind es val) (length es)
          then on es (behind es val - 1) (behind es val - 1) f
          else on es (length es - 1) (length es) f)
  unfolding walk_up
  walk_up_lte zero c f h k max e =
      let last : c ≡ length es - 1 = omega arith in
      let end : suc c ≡ length es = omega arith in
      let count_if_none : ltb (behind es val) (length es) ≡ false =
        ground (arith, bound es val g gt) in
      rw count_if_none (rw last (rw (← last, end)))
  walk_up_lte (suc r) c f h k max e =
      let inside : suc c < length es = omega arith in
      let more : ltb (suc c) f.max_cursor ≡ true = ground arith in
      let e' : suc c + 1 ≡ suc (suc c) = omega arith in
      elim (dec_lt (suc c) (behind es val)) [
        | yes on_run ↦
            rw
              (
                reads (suc c) (on es c (suc c) f) inside,
                more,
                same (suc c) (omega arith) on_run,
                e',
              )
              (walk_up_lte r (suc c) f (omega arith) on_run max (omega arith))
        | no over ↦
            let b : behind es val - 1 ≡ c = omega arith in
            let back : suc c - 1 ≡ c = omega arith in
            let some_above : ltb (behind es val) (length es) ≡ true = ground arith in
            rw
              (
                reads (suc c) (on es c (suc c) f) inside,
                more,
                high_differs (suc c) (omega arith) inside,
                some_above,
                b,
                back,
              )
              (reads c (on es (suc c) c f) (omega arith))
      ]
