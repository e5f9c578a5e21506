-- ===== src/JsonDb/Index/Insert.antt =====
-- `addToIndex` keeps an index in order.
use mathlib.Core.List.{Perm, perm_middle}
use mathlib.Core.List.Perm
use native.Mathlib.Decide.{dec_lt}
use rssdisk.Base.{
  ℕ, zero, suc, ◌%◌, ◌*◌, ◌^◌, ◌≤◌, ◌<◌, ◌≡◌, refl, sym, ap, ◌∙◌, inl, inr, List, [], ◌∷◌, ◌++◌,
  ◌||◌, arith, if◌then◌else◌, length, take, drop, take-append-drop, length-take, take-append_eq,
  drop-append_eq,
}
use rssdisk.Base.Words.{add_size}
use rssdisk.JsonDb.Index.{
  Index, Search, lt, settle, retrieve_cursor, search_all, entry_bytes, add_to_index,
}
use rssdisk.JsonDb.Index.Entries.{Entry, pack, length-pack, pack-append}
use rssdisk.JsonDb.Index.Sorted.{IsSorted, Above, rank, up_to, count_if-le}
use rssdisk.JsonDb.Index.Rounds.{Given, count_below, behind}
use rssdisk.JsonDb.Index.Landing.{Hit, Miss, count_below-le, bound}
use rssdisk.JsonDb.Index.Settled.{
  retrieve_cursor_lem, search_all-Lands, settle_lt_found, settle_lt_none,
}

-- The list with an entry put in at a position.
abbrev pub put_at : ℕ → Entry → List Entry → List Entry
put_at p e es = take p es ++ (e ∷ drop p es)

put_at-Above :
    (r p : ℕ) (e : Entry) (es : List Entry) → Above r es → r ≤ rank e.i → Above r (put_at p e es)
put_at-Above r zero e es h k = (k, h)
put_at-Above r (suc p) e [] h k = (k, h)
put_at-Above r (suc p) e (x ∷ es) h k = (h.0, put_at-Above r p e es h.1 k)

Above-le : (r q : ℕ) (es : List Entry) → Above r es → q ≤ r → Above q es
Above-le r q [] h k = tt
Above-le r q (x ∷ es) h k = (omega (arith, h.0), Above-le r q es h.1 k)

count_if-Above_zero :
    (r val : ℕ) (es : List Entry) → Above r es → rank val ≤ r → count_below es val ≡ 0
count_if-Above_zero r val [] h k = refl
count_if-Above_zero r val (x ∷ es) h k = ground (arith, h.0, count_if-Above_zero r val es h.1 k)

count_if-up_to_zero : (r val : ℕ) (es : List Entry) → Above r es → rank val < r → behind es val ≡ 0
count_if-up_to_zero r val [] h k = refl
count_if-up_to_zero r val (x ∷ es) h k = ground (arith, h.0, count_if-up_to_zero r val es h.1 k)

-- Between the first entry that is not below and the first that is above, it keeps the order.
put_at-IsSorted :
    (p : ℕ) (e : Entry) (es : List Entry)
    → IsSorted es
    → count_below es e.i ≤ p
    → p ≤ behind es e.i
    → IsSorted (put_at p e es)
put_at-IsSorted zero e [] s h k = (tt, tt)
put_at-IsSorted zero e (x ∷ es) s h k =
    let le : rank e.i ≤ rank x.i = ground (arith, h) in
    ((le, Above-le (rank x.i) (rank e.i) es s.0 le), s)
put_at-IsSorted (suc p) e [] s h k = absurd (omega arith)
put_at-IsSorted (suc p) e (x ∷ es) s h k =
    let le : rank x.i ≤ rank e.i = ground (arith, k, count_if-up_to_zero (rank x.i) e.i es s.0) in
    (
      put_at-Above (rank x.i) p e es s.0 le,
      put_at-IsSorted p e es s.1 (ground (arith, h, count_if-Above_zero (rank x.i) e.i es s.0))
          (ground (arith, k, le)),
    )

-- Where `addToIndex` inserts, as a number of bytes.
abbrev byte_pos : ℕ → Index → ℕ
byte_pos size f =
    if f.found || f.found_ultima
    then add_size f.cursor 1 * 16 % 2 ^ 64
    else if f.is_lower
    then 0
    else size

module _ (es : List Entry) (val : ℕ) (g : Given es val) where
  -- A position in entries, in bounds.
  abbrev Place : ℕ → Type 0
  Place pos = (p : ℕ) × (pos ≡ p * 16) × (count_below es val ≤ p) × (p ≤ behind es val)

  Miss-Place :
      (size : ℕ) (s : Search) → 0 < length es → Miss es val lt s → Place (byte_pos size s.f)
  Miss-Place size s pos m = (
    count_below es val,
    ground (
      arith,
      pos,
      g.small,
      m.low_found refl,
      m.low_cursor refl,
      m.ultima,
      m.lower,
      bound es val g lt,
      count_below-le es val g lt,
    ),
    omega arith,
    count_below-le es val g lt,
  )

  Hit-Place :
      (size : ℕ) (s : Search) → Hit es val s → Place (byte_pos size (settle (pack es) val lt s.f))
  Hit-Place size s h = elim (dec_lt 0 (count_below es val)) [
    | yes pos ↦ (
      count_below es val,
      rw (settle_lt_found es val g s h pos)
          (ground (arith, pos, g.small, h.found, h.from, h.below, bound es val g lt)),
      omega arith,
      count_below-le es val g lt,
    )
    | no first ↦ (
      1,
      rw (settle_lt_none es val g s h (omega arith)) (ground arith),
      omega arith,
      omega (arith, h.below),
    )
  ]

  retrieve_cursor-Place :
      0 < length es → Place (byte_pos (length (pack es)) (retrieve_cursor (pack es) val lt))
  retrieve_cursor-Place pos =
      let s = search_all (pack es) val lt (length es) in
      rw (retrieve_cursor_lem es val lt pos) (elim (search_all-Lands es val lt g pos) [
        | inl h ↦ rw h.equal (Hit-Place (length (pack es)) s h)
        | inr m ↦ rw m.equal (Miss-Place (length (pack es)) s pos m)
      ])

module _ (p : ℕ) (es : List Entry) (h : p ≤ length es) where
  cut : pack es ≡ pack (take p es) ++ pack (drop p es)
  cut = ap pack (sym (take-append-drop p es)) ∙ pack-append (take p es) (drop p es)

  front : p * 16 ≡ length (pack (take p es))
  front = omega (arith, length-pack (take p es), length-take p es)

  take-pack : take (p * 16) (pack es) ≡ pack (take p es)
  take-pack =
      ap (take (p * 16)) cut ∙ take-append_eq (pack (take p es)) (pack (drop p es)) (p * 16) front

  drop-pack : drop (p * 16) (pack es) ≡ pack (drop p es)
  drop-pack =
      ap (drop (p * 16)) cut ∙ drop-append_eq (pack (take p es)) (pack (drop p es)) (p * 16) front

put_at-perm : (p : ℕ) (e : Entry) (es : List Entry) → Perm (put_at p e es) (e ∷ es)
put_at-perm p e es =
    Perm.trans (perm_middle (take p es) (drop p es))
      (rw (take-append-drop p es) (Perm.refl (e ∷ es)))

-- What is left of an index after an insertion: the old entries and the new one, in order.
abbrev pub IsInsertion : Entry → List Entry → List ℕ → Type 0
IsInsertion e es index = (fs : List Entry) × (index ≡ pack fs) × IsSorted fs × Perm fs (e ∷ es)

at_place :
    (es : List Entry) (e : Entry) (pos p : ℕ)
    → IsSorted es
    → pos ≡ p * 16
    → count_below es e.i ≤ p
    → p ≤ behind es e.i
    → IsInsertion e es
        (take pos (pack es) ++ (entry_bytes e.i e.offset e.size ++ drop pos (pack es)))
at_place es e pos p s at low high =
    let h : p ≤ length es = omega (arith, count_if-le (up_to e.i) es) in
    (
      put_at p e es,
      rw (at, take-pack p es h, drop-pack p es h)
          (sym (pack-append (take p es) (e ∷ drop p es) ∙ unfold pack in refl)),
      put_at-IsSorted p e es s low high,
      put_at-perm p e es,
    )

add_first : (e : Entry) → IsInsertion e [] (add_to_index (pack []) e.i e.offset e.size)
unfolding add_to_index retrieve_cursor pack
add_first e = (e ∷ [], refl, (tt, tt), Perm.refl (e ∷ []))

-- Inserting an entry into an index whose values are in order, of fewer than 2 ^ 60 entries,
-- gives an index in order that holds the old entries and the new one, each as often as before.
-- The numbers fit their fields.
pub add_to_index-IsSorted :
    (es : List Entry) (e : Entry)
    → Given es e.i
    → IsInsertion e es (add_to_index (pack es) e.i e.offset e.size)
unfolding add_to_index
add_to_index-IsSorted [] e g = unfold retrieve_cursor in add_first e
add_to_index-IsSorted (x ∷ es) e g =
    let (p, at, low, high) = retrieve_cursor-Place (x ∷ es) e.i g (omega arith) in
    at_place (x ∷ es) e (byte_pos (length (pack (x ∷ es))) (retrieve_cursor (pack (x ∷ es)) e.i lt))
      p g.sorted at low high
