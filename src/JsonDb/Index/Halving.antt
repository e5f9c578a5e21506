-- ===== src/JsonDb/Index/Halving.antt =====
-- The loop of `retrieveCursor` ends within its 10000 rounds: each time that the cursor goes up, the
-- distance from the last entry that is known to be below has halved, and it halves with each step down.
use native.Mathlib.Decide.{dec_lt}
use rssdisk.Base.{
  ℕ, zero, suc, ◌+◌, ◌-◌, ◌/◌, ◌*◌, ◌≤◌, ◌<◌, ◌≡◌, refl, ◌∙◌, ◌⊎◌, inl, inr, List, true, false,
  arith, length,
}
use rssdisk.JsonDb.Index.{Search, SearchOp, search_loop, start}
use rssdisk.JsonDb.Index.Entries.{Entry, pack}
use rssdisk.JsonDb.Index.Rounds.{Given, count_below, behind, round_low, round_high}
use rssdisk.JsonDb.Index.Landing.{
  IsFresh, Lands, count_below-le, bound, land_equal, above_last, above_next, above_jump,
  below_first, below_next, below_jump, seen, seen-IsFresh, land, go_on, place, climb, descend,
}

pow2 : ℕ → ℕ
pow2 zero = 1
pow2 (suc k) = 2 * pow2 k

-- The rounds that j ways up take, with `most` at each of them.
rounds : ℕ → ℕ → ℕ
rounds most zero = 0
rounds most (suc j) = most + rounds most j

-- The cursor between the last entry that is known to be below, and twice as far as the first that
-- is not below.
record IsHalving (es : List Entry) (val : ℕ) (j k : ℕ) (s : Search) : Type 0 where
  up : s.step_up ≡ false
  down : s.step_down ≡ false
  prev_le : s.prev ≤ s.at
  moved : (s.prev < s.at) ⊎ (length es ≤ 5)
  prev_low : (s.prev ≡ 0) ⊎ (s.prev < count_below es val)
  far : count_below es val ≤ s.prev + pow2 j
  half : count_below es val ≤ s.prev + 2 * (s.at - s.prev) + 1
  near : s.at < s.prev + pow2 k

module _ (es : List Entry) (val : ℕ) (g : Given es val) (op : SearchOp) (most : ℕ)
    (size : length es ≤ pow2 most) where
  Roams : ℕ → Search → Type 0
  Roams fuel s = Lands es val op (search_loop fuel (pack es) val op (length es) s)

  -- Below the value and near the end.
  end_low :
      (fuel : ℕ) (s : Search)
      → IsFresh es s
      → s.step_down ≡ false
      → 7 ≤ fuel
      → s.at < count_below es val
      → length es ≤ s.at + 5
      → Roams (suc fuel) s
  unfolding Roams
  end_low fuel s fresh down enough low near = elim (dec_lt (suc s.at) (length es)) [
    | no end ↦ land es val g op fuel s _ (round_low es val g op s fresh.inside low) (
        above_last es val g op (seen es val g op s) (seen-IsFresh es val g op s fresh) down
          (omega (arith, fresh.inside)) low)
    | yes more ↦
        let s' = record (seen es val g op s) { prev = s.at; step_up = true; at = suc s.at } in
        go_on es val g op fuel s s'
          (round_low es val g op s fresh.inside low
            ∙ above_next es val g op (seen es val g op s) (seen-IsFresh es val g op s fresh) down
                more near)
          fresh.again
          (climb es val g op fuel s' (ground (arith, more, fresh.equal)) refl down (omega arith) low
            (omega arith) (omega arith))
  ]

  -- Above the value and near the last entry that is known to be below.
  end_high :
      (fuel : ℕ) (s : Search)
      → IsFresh es s
      → s.step_up ≡ false
      → (s.prev ≡ 0) ⊎ (s.prev < count_below es val)
      → 7 ≤ fuel
      → behind es val ≤ s.at
      → s.prev ≤ s.at
      → s.at ≤ s.prev + 5
      → Roams (suc fuel) s
  unfolding Roams
  end_high fuel s fresh up prev enough high le near = elim (dec_lt 0 s.at) [
    | no first ↦ land es val g op fuel s _ (round_high es val g op s fresh.inside high) (
        below_first es val g op (seen es val g op s) (seen-IsFresh es val g op s fresh) up
          (omega arith) (omega arith) high)
    | yes pos ↦
        let s' = record (seen es val g op s) { step_down = true; at = s.at - 1 } in
        go_on es val g op fuel s s'
          (round_high es val g op s fresh.inside high
            ∙ below_next es val g op (seen es val g op s) (seen-IsFresh es val g op s fresh) up pos
                le near)
          fresh.again
          (descend es val g op fuel s' (ground (arith, fresh.inside, fresh.equal)) up refl prev
            (omega (arith, count_below-le es val g op)) (omega (arith, fresh.inside)) (omega arith)
            (omega arith) (omega (arith, count_below-le es val g op)))
  ]

  -- The way up halves what is left from the last entry that is below.
  up-IsHalving :
      (j k : ℕ) (s : Search)
      → IsHalving es val j k s
      → s.at < count_below es val
      → s.at + 5 < length es
      → (j' : ℕ) × (j ≡ suc j')
        × IsHalving es val j' most
            (record (seen es val g op s) { prev = s.at; at = s.at + (length es - s.at) / 2 })
  unfolding pow2
  up-IsHalving zero k s h low room = absurd (omega (arith, h.far, h.moved))
  up-IsHalving (suc j) k s h low room = (
    j,
    refl,
    record {
      up = h.up;
      down = h.down;
      prev_le = omega arith;
      moved = inl (omega arith);
      prev_low = inr low;
      far = omega (arith, h.far, h.half, h.prev_le);
      half = omega (arith, bound es val g op, count_below-le es val g op);
      near = omega (arith, size);
    },
  )

  -- The way down halves the distance to it.
  down-IsHalving :
      (j k : ℕ) (s : Search)
      → IsHalving es val j k s
      → behind es val ≤ s.at
      → s.prev + 5 < s.at
      → (k' : ℕ) × (k ≡ suc k')
        × IsHalving es val j k' (record (seen es val g op s) { at = s.prev + (s.at - s.prev) / 2 })
  unfolding pow2
  down-IsHalving j zero s h high room = absurd (omega (arith, h.near))
  down-IsHalving j (suc k) s h high room = (
    k,
    refl,
    record {
      up = h.up;
      down = h.down;
      prev_le = omega arith;
      moved = inl (omega arith);
      prev_low = h.prev_low;
      far = h.far;
      half = omega (arith, count_below-le es val g op);
      near = omega (arith, h.near);
    },
  )

  roam :
      (fuel j k : ℕ) (s : Search)
      → IsFresh es s
      → IsHalving es val j k s
      → k ≤ most
      → rounds (suc most) j + k + 8 ≤ fuel
      → Roams fuel s
  unfolding Roams rounds
  roam zero j k s fresh h le enough = absurd (omega arith)
  roam (suc fuel) j k s fresh h le enough = elim (place es val g op s.at) [
    | inr (inl (from, below)) ↦ land_equal es val g op fuel s fresh from below
    | inl low ↦ elim (dec_lt (s.at + 5) (length es)) [
      | no near ↦ end_low fuel s fresh h.down (omega arith) low (omega arith)
      | yes room ↦
          let (j', e, h') = up-IsHalving j k s h low room in
          let s' = record (seen es val g op s) {
            prev = s.at;
            at = s.at + (length es - s.at) / 2;
          } in
          let left : rounds (suc most) (suc j') + k + 8 ≤ suc fuel = rw e at enough in
          go_on es val g op fuel s s'
            (round_low es val g op s fresh.inside low
              ∙ above_jump es val g op (seen es val g op s) (seen-IsFresh es val g op s fresh)
                  h.down room)
            fresh.again
            (roam fuel j' most s' (ground (arith, room, fresh.equal)) h' (omega arith)
              (omega (arith, left)))
    ]
    | inr (inr high) ↦ elim (dec_lt (s.prev + 5) s.at) [
      | no near ↦ end_high fuel s fresh h.up h.prev_low (omega arith) high h.prev_le (omega arith)
      | yes room ↦
          let (k', e, h') = down-IsHalving j k s h high room in
          let s' = record (seen es val g op s) { at = s.prev + (s.at - s.prev) / 2 } in
          let left : rounds (suc most) j + suc k' + 8 ≤ suc fuel = rw e at enough in
          let less : suc k' ≤ most = rw e at le in
          go_on es val g op fuel s s'
            (round_high es val g op s fresh.inside high
              ∙ below_jump es val g op (seen es val g op s) (seen-IsFresh es val g op s fresh) h.up
                  room)
            fresh.again
            (roam fuel j k' s' (ground (arith, room, fresh.inside, fresh.equal)) h' (omega arith)
              (omega (arith, left)))
    ]
  ]

start-IsFresh : (es : List Entry) → 0 < length es → IsFresh es (start (length es))
start-IsFresh es pos = ground arith

start-IsHalving :
    (es : List Entry) (val : ℕ)
    → Given es val
    → SearchOp
    → 0 < length es
    → IsHalving es val 60 60 (start (length es))
unfolding pow2
start-IsHalving es val g op pos = record {
  up = refl;
  down = refl;
  prev_le = omega arith;
  moved = grind arith;
  prev_low = inl refl;
  far = omega (arith, g.small, bound es val g op, count_below-le es val g op);
  half = omega (arith, bound es val g op, count_below-le es val g op);
  near = omega (arith, g.small);
}

-- Of an index with fewer than 2 ^ 60 entries.
pub search_loop-Lands :
    (es : List Entry) (val : ℕ) (op : SearchOp)
    → Given es val
    → 0 < length es
    → Lands es val op (search_loop 10000 (pack es) val op (length es) (start (length es)))
unfolding pow2 rounds Roams
search_loop-Lands es val op g pos =
    roam es val g op 60 (omega (arith, g.small)) 10000 60 60 (start (length es))
      (start-IsFresh es pos) (start-IsHalving es val g op pos) (omega arith) (omega arith)
