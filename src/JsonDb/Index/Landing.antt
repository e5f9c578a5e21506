-- ===== src/JsonDb/Index/Landing.antt =====
-- Where the loop of `retrieveCursor` ends: on an entry with the value, or between two entries.
use native.Mathlib.Decide.{dec_lt}
use rssdisk.Base.{
  ℕ, zero, suc, ◌+◌, ◌-◌, ◌/◌, ◌≤◌, ◌<◌, ◌≡◌, refl, ◌∙◌, ◌⊎◌, inl, inr, List, true, false, arith,
  ltb, ◌==◌, length,
}
use rssdisk.JsonDb.Index.{
  Search, SearchOp, compare, is_low, is_high, step_above, step_below, search_round, search_loop,
}
use rssdisk.JsonDb.Index.Entries.{Entry, pack, entry_at, holding}
use rssdisk.JsonDb.Index.Sorted.{count_if-le, up_to, before-le-up_to}
use rssdisk.JsonDb.Index.Rounds.{
  Given, count_below, behind, round_low, round_high, round_equal, search_loop-again,
  search_loop-stop,
}

-- On an entry that has the value.
pub record Hit (es : List Entry) (val : ℕ) (s : Search) : Type 0 where
  pub equal : s.equal ≡ true
  pub found : s.f.found ≡ true
  pub ultima : s.f.found_ultima ≡ false
  pub max : s.f.max_cursor ≡ length es
  pub from : count_below es val ≤ s.f.cursor
  pub below : s.f.cursor < behind es val
  pub value : s.f.i ≡ (entry_at es s.f.cursor).i
  pub offset : s.f.dd.offset ≡ (entry_at es s.f.cursor).offset
  pub size : s.f.dd.size ≡ (entry_at es s.f.cursor).size

-- No entry has the value: the cursor is at the last smaller one, or at the first greater one.
pub record Miss (es : List Entry) (val : ℕ) (op : SearchOp) (s : Search) : Type 0 where
  pub equal : s.equal ≡ false
  pub stopped : s.again ≡ false
  pub ultima : s.f.found_ultima ≡ false
  pub absent : behind es val ≡ count_below es val
  pub lower : s.f.is_lower ≡ (count_below es val == 0)
  pub low_found : is_low op ≡ true → s.f.found ≡ ltb 0 (count_below es val)
  pub low_cursor : is_low op ≡ true → 0 < count_below es val → suc s.f.cursor ≡ count_below es val
  pub high_found : is_high op ≡ true → s.f.found ≡ ltb (count_below es val) (length es)
  pub high_cursor :
      is_high op ≡ true → count_below es val < length es → s.f.cursor ≡ count_below es val
  pub compare_found : op ≡ compare → s.f.found ≡ false

abbrev pub Lands : List Entry → ℕ → SearchOp → Search → Type 0
Lands es val op s = Hit es val s ⊎ Miss es val op s

-- Nothing is found yet.
pub record IsFresh (es : List Entry) (s : Search) : Type 0 where
  pub inside : s.at < length es
  pub equal : s.equal ≡ false
  pub again : s.again ≡ true
  pub found : s.f.found ≡ false
  pub ultima : s.f.found_ultima ≡ false
  pub lower : s.f.is_lower ≡ false
  pub max : s.f.max_cursor ≡ length es

module _ (es : List Entry) (val : ℕ) (g : Given es val) (op : SearchOp) where
  pub count_below-le : count_below es val ≤ behind es val
  count_below-le = before-le-up_to val es

  pub bound : behind es val ≤ length es
  bound = count_if-le (up_to val) es

  -- The cursor is on an entry with the value: the loop ends there.
  pub land_equal :
      (k : ℕ) (s : Search)
      → IsFresh es s
      → count_below es val ≤ s.at
      → s.at < behind es val
      → Lands es val op (search_loop (suc k) (pack es) val op (length es) s)
  land_equal k s fresh from below =
      let e = round_equal es val g op s fresh.inside from below in
      rw (search_loop-stop (pack es) val op (length es) k s (rw e)) (
        rw e (
          inl (record {
            equal = refl;
            found = refl;
            ultima = fresh.ultima;
            max = fresh.max;
            from = from;
            below = below;
            value = refl;
            offset = refl;
            size = refl;
          })))

  -- What a round does below the value, by where it is.
  module _ (s : Search) (fresh : IsFresh es s) where
    above_turn :
        s.step_down ≡ true
        → suc s.at < length es
        → suc s.at ≡ count_below es val
        → behind es val ≡ count_below es val
        → Miss es val op (step_above op (length es) s)
    unfolding step_above
    above_turn down inside e absent = ground (arith, g.small, fresh.inside, count_below-le, bound)

    pub above_last :
        s.step_down ≡ false
        → suc s.at ≡ length es
        → s.at < count_below es val
        → Miss es val op (step_above op (length es) s)
    unfolding step_above
    above_last down e low = ground (arith, g.small, fresh.inside, count_below-le, bound)

    pub above_next :
        s.step_down ≡ false
        → suc s.at < length es
        → length es ≤ s.at + 5
        → step_above op (length es) s ≡ record s { prev = s.at; step_up = true; at = suc s.at }
    unfolding step_above
    above_next down h near = ground (arith, g.small, fresh.inside)

    pub above_jump :
        s.step_down ≡ false
        → s.at + 5 < length es
        → step_above op (length es) s ≡ record s { prev = s.at; at = s.at + (length es - s.at) / 2 }
    unfolding step_above
    above_jump down h = ground (arith, g.small, fresh.inside)

    -- And above the value.
    below_turn :
        s.step_up ≡ true
        → 0 < s.at
        → s.at ≡ count_below es val
        → behind es val ≡ count_below es val
        → Miss es val op (step_below op s)
    unfolding step_below
    below_turn up pos e absent = ground (arith, g.small, fresh.inside, count_below-le, bound)

    pub below_first :
        s.step_up ≡ false
        → s.at ≡ 0
        → s.prev ≡ 0
        → behind es val ≤ s.at
        → Miss es val op (step_below op s)
    unfolding step_below
    below_first up e p low = ground (arith, g.small, fresh.inside, count_below-le, bound)

    pub below_next :
        s.step_up ≡ false
        → 0 < s.at
        → s.prev ≤ s.at
        → s.at ≤ s.prev + 5
        → step_below op s ≡ record s { step_down = true; at = s.at - 1 }
    unfolding step_below
    below_next up pos le near = ground (arith, g.small, fresh.inside)

    pub below_jump :
        s.step_up ≡ false
        → s.prev + 5 < s.at
        → step_below op s ≡ record s { at = s.prev + (s.at - s.prev) / 2 }
    unfolding step_below
    below_jump up h = ground (arith, g.small, fresh.inside)

  -- After the entry at the cursor was read.
  abbrev pub seen : Search → Search
  seen s = record s { f = holding (entry_at es s.at) s.f }

  pub seen-IsFresh : (s : Search) → IsFresh es s → IsFresh es (seen s)
  seen-IsFresh s h = ground (arith)

  -- A round that ends the loop.
  pub land :
      (k : ℕ) (s r : Search)
      → search_round (pack es) val op (length es) s ≡ r
      → Miss es val op r
      → Lands es val op (search_loop (suc k) (pack es) val op (length es) s)
  land k s r e m =
      rw (search_loop-stop (pack es) val op (length es) k s (rw e m.stopped), e) (inr m)

  -- A round that the loop goes on from.
  pub go_on :
      (k : ℕ) (s r : Search)
      → search_round (pack es) val op (length es) s ≡ r
      → r.again ≡ true
      → Lands es val op (search_loop k (pack es) val op (length es) r)
      → Lands es val op (search_loop (suc k) (pack es) val op (length es) s)
  go_on k s r e again m = rw (search_loop-again (pack es) val op (length es) k s (rw e again), e) m

  -- Where the cursor is against the entries with the value.
  pub place :
      (c : ℕ)
      → (c < count_below es val)
        ⊎ (count_below es val ≤ c × c < behind es val)
        ⊎ (behind es val ≤ c)
  place c = grind arith

  -- Near the end of the index the cursor goes up entry by entry.
  pub climb :
      (k : ℕ) (s : Search)
      → IsFresh es s
      → s.step_up ≡ true
      → s.step_down ≡ false
      → 0 < s.at
      → s.at ≤ count_below es val
      → length es ≤ s.at + 5
      → length es < s.at + k
      → Lands es val op (search_loop k (pack es) val op (length es) s)
  climb zero s fresh up down pos le near enough = absurd (omega (arith, fresh.inside))
  climb (suc k) s fresh up down pos le near enough = elim (place s.at) [
    | inr (inl (from, below)) ↦ land_equal k s fresh from below
    | inr (inr high) ↦ land k s _ (round_high es val g op s fresh.inside high) (
        below_turn (seen s) (seen-IsFresh s fresh) up pos (omega (arith, count_below-le))
          (omega (arith, count_below-le)))
    | inl low ↦ elim (dec_lt (suc s.at) (length es)) [
      | no end ↦
          land k s _ (round_low es val g op s fresh.inside low)
            (above_last (seen s) (seen-IsFresh s fresh) down (omega (arith, fresh.inside)) low)
      | yes more ↦
          go_on k s (record (seen s) { prev = s.at; step_up = true; at = suc s.at })
            (round_low es val g op s fresh.inside low
              ∙ above_next (seen s) (seen-IsFresh s fresh) down more near)
            fresh.again
            (climb k (record (seen s) { prev = s.at; step_up = true; at = suc s.at })
              (ground (arith, more, fresh.equal)) refl down (omega arith) low (omega arith)
              (omega arith))
    ]
  ]

  -- Near the last entry that is known to be below, the cursor goes down entry by entry.
  pub descend :
      (k : ℕ) (s : Search)
      → IsFresh es s
      → s.step_up ≡ false
      → s.step_down ≡ true
      → (s.prev ≡ 0) ⊎ (s.prev < count_below es val)
      → s.prev ≤ s.at
      → suc s.at < length es
      → behind es val ≤ suc s.at
      → s.at ≤ s.prev + 5
      → s.at < s.prev + k
      → Lands es val op (search_loop k (pack es) val op (length es) s)
  descend zero s fresh up down prev le more high near enough = absurd (omega arith)
  descend (suc k) s fresh up down prev le more high near enough = elim (place s.at) [
    | inr (inl (from, below)) ↦ land_equal k s fresh from below
    | inl low ↦ land k s _ (round_low es val g op s fresh.inside low) (
        above_turn (seen s) (seen-IsFresh s fresh) down more (omega (arith, count_below-le))
          (omega (arith, count_below-le)))
    | inr (inr higher) ↦ elim (dec_lt 0 s.at) [
      | no first ↦
          land k s _ (round_high es val g op s fresh.inside higher)
            (below_first (seen s) (seen-IsFresh s fresh) up (omega arith) (omega arith) higher)
      | yes pos ↦
          go_on k s (record (seen s) { step_down = true; at = s.at - 1 })
            (round_high es val g op s fresh.inside higher
              ∙ below_next (seen s) (seen-IsFresh s fresh) up pos le near)
            fresh.again
            (descend k (record (seen s) { step_down = true; at = s.at - 1 })
              (ground (arith, fresh.inside, fresh.equal)) up refl prev
              (omega (arith, count_below-le)) (omega arith) (omega arith) (omega arith)
              (omega (arith, count_below-le)))
    ]
  ]
