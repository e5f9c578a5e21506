-- ===== src/JsonDb/Index/Settled.antt =====
-- `retrieveCursor` as a whole: the cursor that it answers for each of its five operations.
use native.Mathlib.Decide.{dec_lt}
use rssdisk.Base.{
  ℕ, suc, ◌+◌, ◌-◌, ◌/◌, ◌≤◌, ◌<◌, ◌≡◌, refl, ap, ◌∙◌, ◌⊎◌, inl, inr, List, [], ◌∷◌, true, false,
  Option, none, some, arith, ltb, ◌==◌, if◌then◌else◌, length,
}
use rssdisk.Base.Words.{add_size}
use rssdisk.JsonDb.Index.{
  Index, Search, SearchOp, compare, lte, gte, lt, gt, sub_size, walk_down, walk_up, settle,
  retrieve_cursor, search_all,
}
use rssdisk.JsonDb.Index.Entries.{Entry, pack, entry_at, length-pack}
use rssdisk.JsonDb.Index.Rounds.{Given, count_below, behind, low_at, equal_at, high_at}
use rssdisk.JsonDb.Index.Landing.{Hit, Miss, Lands, bound}
use rssdisk.JsonDb.Index.Halving.{search_loop-Lands}
use rssdisk.JsonDb.Index.Cursor.{on, walk_down_lt, walk_down_gte, walk_up_gt, walk_up_lte}

-- The answer of a search: a position, or nothing.
abbrev pub position : Index → Option ℕ
position f = if f.found then some f.cursor else none

-- From the first entry that is not below the value, and the first that is above it. Where entries
-- with the value end the index, `lte` may answer one past them.
abbrev pub Answers : List Entry → ℕ → SearchOp → Index → Type 0
Answers es val compare f =
    ((position f ≡ none) × (count_below es val ≡ behind es val))
    ⊎ ((c : ℕ) × (position f ≡ some c) × (count_below es val ≤ c) × (c < behind es val))
Answers es val gte f =
    position f ≡ (if ltb (count_below es val) (length es) then some (count_below es val) else none)
Answers es val gt f =
    position f ≡ (if ltb (behind es val) (length es) then some (behind es val) else none)
Answers es val lt f =
    position f ≡ (if ltb 0 (count_below es val) then some (count_below es val - 1) else none)
Answers es val lte f =
    (position f ≡ (if ltb 0 (behind es val) then some (behind es val - 1) else none))
    ⊎ ((position f ≡ some (length es)) × (behind es val ≡ length es))

module _ (es : List Entry) (val : ℕ) (g : Given es val) (s : Search) (h : Hit es val s) where
  shape : s.f ≡ on es s.f.cursor s.f.cursor s.f
  shape = ground (arith, h.value, h.offset, h.size)

  walked_lt :
      walk_down s.f.cursor (pack es) val lt s.f
      ≡ on es (count_below es val - 1) (count_below es val - 1) s.f
  walked_lt =
      ap (walk_down s.f.cursor (pack es) val lt) shape
      ∙ walk_down_lt es val g s.f.cursor s.f h.from h.below

  -- After a hit, for each operation.
  pub settle_lt_found :
      0 < count_below es val
      → settle (pack es) val lt s.f ≡ on es (count_below es val - 1) (count_below es val - 1) s.f
  unfolding settle
  settle_lt_found pos =
      let differs : ((entry_at es (count_below es val - 1)).i == val) ≡ false =
        ground (arith, low_at es val g (count_below es val - 1)) in
      rw (walked_lt, differs)

  pub settle_lt_none :
      count_below es val ≡ 0
      → settle (pack es) val lt s.f ≡ record (on es 0 0 s.f) { found_ultima = true; found = false }
  unfolding settle
  settle_lt_none e =
      let z : count_below es val - 1 ≡ 0 = omega arith in
      let same : ((entry_at es 0).i == val) ≡ true = ground (arith, equal_at es val g 0, h.below) in
      rw (walked_lt, z, same)

  pub settle_gte :
      settle (pack es) val gte s.f ≡ on es (count_below es val) (count_below es val) s.f
  unfolding settle
  settle_gte =
      ap (walk_down s.f.cursor (pack es) val gte) shape
      ∙ walk_down_gte es val g s.f.cursor s.f h.from h.below

  next : add_size s.f.cursor 1 ≡ suc s.f.cursor
  next = omega (arith, h.below, bound es val g lt, g.small)

  last : sub_size (suc s.f.cursor) 1 ≡ s.f.cursor
  last = omega (arith, h.below, bound es val g lt, g.small)

  module _ (more : suc s.f.cursor < length es) where
    inside : ltb (suc s.f.cursor) s.f.max_cursor ≡ true
    inside = ground (arith, more, h.max)

    rounds_left : s.f.cursor + suc (s.f.max_cursor - suc s.f.cursor) ≡ length es
    rounds_left = omega (arith, more, h.max)

    from_next : record s.f { cursor = suc s.f.cursor } ≡ on es s.f.cursor (suc s.f.cursor) s.f
    from_next = ap (λ (f : Index). record f { cursor = suc s.f.cursor }) shape

    walked_gt :
        walk_up
          (s.f.max_cursor - suc s.f.cursor)
          (pack es)
          val
          gt
          (record (s.f) { cursor = suc s.f.cursor })
        ≡ (if ltb (behind es val) (length es)
            then on es (behind es val) (behind es val) s.f
            else on es (length es - 1) (length es) s.f)
    walked_gt =
        ap (walk_up (s.f.max_cursor - suc s.f.cursor) (pack es) val gt) from_next
        ∙ walk_up_gt es val g (s.f.max_cursor - suc s.f.cursor) s.f.cursor s.f h.from h.below h.max
            rounds_left

    walked_lte :
        walk_up
          (s.f.max_cursor - suc s.f.cursor)
          (pack es)
          val
          lte
          (record (s.f) { cursor = suc s.f.cursor })
        ≡ (if ltb (behind es val) (length es)
            then on es (behind es val - 1) (behind es val - 1) s.f
            else on es (length es - 1) (length es) s.f)
    walked_lte =
        ap (walk_up (s.f.max_cursor - suc s.f.cursor) (pack es) val lte) from_next
        ∙ walk_up_lte es val g (s.f.max_cursor - suc s.f.cursor) s.f.cursor s.f h.from h.below h.max
            rounds_left

  pub settle_gt_found :
      behind es val < length es
      → settle (pack es) val gt s.f ≡ on es (behind es val) (behind es val) s.f
  unfolding settle
  settle_gt_found room =
      let more : suc s.f.cursor < length es = omega (arith, h.below) in
      let differs : ((entry_at es (behind es val)).i == val) ≡ false =
        ground (arith, high_at es val g (behind es val)) in
      let above : ltb (behind es val) (length es) ≡ true = ground arith in
      rw (next, inside more, walked_gt more, above, differs)

  pub settle_gt_none : behind es val ≡ length es → (settle (pack es) val gt s.f).found ≡ false
  unfolding settle
  settle_gt_none end =
      let above : ltb (behind es val) (length es) ≡ false = ground arith in
      let same : ((entry_at es (length es - 1)).i == val) ≡ true =
        ground (arith, equal_at es val g (length es - 1), h.below, h.from) in
      let here : (s.f.i == val) ≡ true =
        ground (arith, equal_at es val g s.f.cursor, h.below, h.from, h.value) in
      elim (dec_lt (suc s.f.cursor) (length es)) [
        | yes more ↦ rw (next, inside more, walked_gt more, above, same)
        | no over ↦
            let outside : ltb (suc s.f.cursor) s.f.max_cursor ≡ false =
              ground (arith, over, h.max) in
            rw (next, outside, here)
      ]

  pub settle_lte :
      (settle (pack es) val lte s.f ≡ on es (behind es val - 1) (behind es val - 1) s.f)
      ⊎ ((settle (pack es) val lte s.f ≡ on es (length es - 1) (length es) s.f)
          × (behind es val ≡ length es))
  unfolding settle
  settle_lte = elim (dec_lt (suc s.f.cursor) (length es)) [
    | no over ↦
        let outside : ltb (suc s.f.cursor) s.f.max_cursor ≡ false = ground (arith, over, h.max) in
        let e : behind es val - 1 ≡ s.f.cursor = omega (arith, h.below, bound es val g lt) in
        inl (rw (next, outside, last, e) shape)
    | yes more ↦ elim (dec_lt (behind es val) (length es)) [
      | yes room ↦
          let above : ltb (behind es val) (length es) ≡ true = ground arith in
          inl (rw (next, inside more, walked_lte more, above))
      | no end ↦
          let above : ltb (behind es val) (length es) ≡ false = ground arith in
          inr (rw (next, inside more, walked_lte more, above), omega (arith, bound es val g lt))
    ]
  ]

pub retrieve_cursor_lem :
    (es : List Entry) (val : ℕ) (op : SearchOp)
    → 0 < length es
    → retrieve_cursor (pack es) val op ≡ (
        let s = search_all (pack es) val op (length es) in
        if s.equal then settle (pack es) val op s.f else s.f)
unfolding retrieve_cursor
retrieve_cursor_lem es val op pos =
    let n : length (pack es) / 16 ≡ length es = omega (arith, length-pack es) in
    let some_bytes : (length (pack es) == 0) ≡ false = ground (arith, length-pack es) in
    rw (n, some_bytes)

pub search_all-Lands :
    (es : List Entry) (val : ℕ) (op : SearchOp)
    → Given es val
    → 0 < length es
    → Lands es val op (search_all (pack es) val op (length es))
unfolding search_all
search_all-Lands es val op g pos = search_loop-Lands es val op g pos

Miss-Answers :
    (es : List Entry) (val : ℕ) (op : SearchOp)
    → Given es val
    → (s : Search) → Miss es val op s
    → Answers es val op s.f
Miss-Answers es val compare g s m =
    inl (ground (arith, m.compare_found refl), ground (arith, m.absent))
Miss-Answers es val gte g s m = ground (arith, m.high_found refl, m.high_cursor refl)
Miss-Answers es val gt g s m = ground (arith, m.high_found refl, m.high_cursor refl, m.absent)
Miss-Answers es val lt g s m = ground (arith, m.low_found refl, m.low_cursor refl)
Miss-Answers es val lte g s m = inl (ground (arith, m.low_found refl, m.low_cursor refl, m.absent))

Hit-Answers :
    (es : List Entry) (val : ℕ) (op : SearchOp)
    → Given es val
    → (s : Search) → Hit es val s
    → Answers es val op (settle (pack es) val op s.f)
Hit-Answers es val compare g s h =
    unfold settle in inr (s.f.cursor, ground (arith, h.found), h.from, h.below)
Hit-Answers es val gte g s h =
    rw (settle_gte es val g s h) (ground (arith, h.found, h.from, h.below, bound es val g gte))
Hit-Answers es val gt g s h = elim (dec_lt (behind es val) (length es)) [
  | yes room ↦ rw (settle_gt_found es val g s h room) (ground (arith, h.found, room))
  | no end ↦
      let last : behind es val ≡ length es = omega (arith, bound es val g gt) in
      ground (arith, settle_gt_none es val g s h last, last)
]
Hit-Answers es val lt g s h = elim (dec_lt 0 (count_below es val)) [
  | yes pos ↦ rw (settle_lt_found es val g s h pos) (ground (arith, h.found, pos))
  | no first ↦ rw (settle_lt_none es val g s h (omega arith)) (ground (arith, first))
]
Hit-Answers es val lte g s h = elim (settle_lte es val g s h) [
  | inl e ↦ rw e (inl (ground (arith, h.found, h.below)))
  | inr (e, last) ↦ rw e (inr (ground (arith, h.found), last))
]

none_entry : (val : ℕ) (op : SearchOp) → Answers [] val op (retrieve_cursor (pack []) val op)
unfolding retrieve_cursor pack
none_entry val compare = inl (refl, refl)
none_entry val gte = refl
none_entry val gt = refl
none_entry val lt = refl
none_entry val lte = inl refl

-- Over an index whose values are in order, of fewer than 2 ^ 60 entries, the search ends within
-- its 10000 rounds and answers, for each of the five operations, the position that a scan
-- would: the first entry not below the value (gte), the first above it (gt), the last below it
-- (lt), any entry with it (compare), or none; for lte the last not above it, or one past the
-- end of the index if entries with the value end it.
pub retrieve_cursor-Answers :
    (es : List Entry) (val : ℕ) (op : SearchOp)
    → Given es val
    → Answers es val op (retrieve_cursor (pack es) val op)
retrieve_cursor-Answers [] val op g = none_entry val op
retrieve_cursor-Answers (e ∷ es) val op g =
    let s = search_all (pack (e ∷ es)) val op (length (e ∷ es)) in
    rw (retrieve_cursor_lem (e ∷ es) val op (omega arith))
      (elim (search_all-Lands (e ∷ es) val op g (omega arith)) [
        | inl h ↦ rw h.equal (Hit-Answers (e ∷ es) val op g s h)
        | inr m ↦ rw m.equal (Miss-Answers (e ∷ es) val op g s m)
      ])
