-- ===== src/JsonDb/Index/Rounds.antt =====
-- The rounds of the search of `retrieveCursor` over an index in order.
use rssdisk.Base.{ℕ, suc, ◌^◌, ◌≤◌, ◌<◌, ◌≡◌, List, true, false, arith, length, All}
use rssdisk.Base.Words.{ltb_i64}
use rssdisk.JsonDb.Index.{
  Search, SearchOp, extract_index, step_above, step_below, search_round, search_loop,
}
use rssdisk.JsonDb.Index.Entries.{
  Entry, Fits, pack, entry_at, holding, extract_index-pack, All-entry_at,
}
use rssdisk.JsonDb.Index.Sorted.{
  IsSorted, rank_injective, count_if, count_if-front, count_if-back, count_if-le, before, up_to,
  before-down, up_to-down,
}

-- What the search is for: the index, the value, and the bounds under which it works.
pub record Given (es : List Entry) (val : ℕ) : Type 0 where
  pub fits : All Fits es
  pub small : length es < 2 ^ 60
  pub sorted : IsSorted es
  pub val_fits : val < 2 ^ 64

-- The first entry that is not below the value, and the first that is above it.
abbrev pub count_below : List Entry → ℕ → ℕ
count_below es val = count_if (before val) es

abbrev pub behind : List Entry → ℕ → ℕ
behind es val = count_if (up_to val) es

module _ (es : List Entry) (val : ℕ) (g : Given es val) where
  pub low_at : (c : ℕ) → c < count_below es val → ltb_i64 (entry_at es c).i val ≡ true
  low_at c h = count_if-front (before val) (before-down val) es c g.sorted h

  pub high_at : (c : ℕ) → behind es val ≤ c → c < length es → ltb_i64 val (entry_at es c).i ≡ true
  high_at c h inside =
      ground (arith, count_if-back (up_to val) (up_to-down val) es c g.sorted h inside)

  pub equal_at : (c : ℕ) → count_below es val ≤ c → c < behind es val → (entry_at es c).i ≡ val
  equal_at c h k =
      let inside : c < length es = omega (arith, count_if-le (up_to val) es) in
      rank_injective _ _ (All-entry_at es c g.fits inside).i_fits g.val_fits (
        ground (
          arith,
          count_if-back (before val) (before-down val) es c g.sorted h inside,
          count_if-front (up_to val) (up_to-down val) es c g.sorted k,
        ))

  module _ (op : SearchOp) (s : Search) (inside : s.at < length es) where
    abbrev seen : Search
    seen = record s { f = holding (entry_at es s.at) s.f }

    reads : extract_index (pack es) s.at s.f ≡ holding (entry_at es s.at) s.f
    reads = extract_index-pack es s.at s.f g.fits g.small inside

    pub round_low :
        s.at < count_below es val
        → search_round (pack es) val op (length es) s
          ≡ step_above op (length es) (record s { f = holding (entry_at es s.at) s.f })
    unfolding search_round
    round_low h = rw reads (ground (arith, low_at s.at h))

    pub round_high :
        behind es val ≤ s.at
        → search_round (pack es) val op (length es) s
          ≡ step_below op (record s { f = holding (entry_at es s.at) s.f })
    unfolding search_round
    round_high h = rw reads (ground (arith, high_at s.at h inside))

    pub round_equal :
        count_below es val ≤ s.at
        → s.at < behind es val
        → search_round (pack es) val op (length es) s ≡ record s {
          f = record (holding (entry_at es s.at) s.f) { cursor = s.at; found = true };
          equal = true;
          again = false;
        }
    unfolding search_round
    round_equal h k = rw reads (ground (arith, equal_at s.at h k))

-- The loop goes on, or stops.
module _ (index : List ℕ) (val : ℕ) (op : SearchOp) (n rounds : ℕ) (s : Search) where
  pub search_loop-again :
      (search_round index val op n s).again ≡ true
      → search_loop (suc rounds) index val op n s
        ≡ search_loop rounds index val op n (search_round index val op n s)
  search_loop-again h = unfold search_loop in rw h

  pub search_loop-stop :
      (search_round index val op n s).again ≡ false
      → search_loop (suc rounds) index val op n s ≡ search_round index val op n s
  search_loop-stop h = unfold search_loop in rw h
