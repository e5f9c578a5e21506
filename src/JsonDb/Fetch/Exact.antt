-- ===== src/JsonDb/Fetch/Exact.antt =====
-- What `fetchIndexedData` finds, against a scan of all entries.
use native.Mathlib.Decide.{dec_lt}
use rssdisk.Base.{
  ℕ, suc, ◌+◌, ◌-◌, ◌≤◌, ◌<◌, ◌≡◌, sym, ap, ◌∙◌, inl, inr, List, [], Bool, true, false, ◌||◌, arith,
  if◌then◌else◌, length, take, drop, drop_all,
}
use rssdisk.JsonDb.Index.{
  Index, Search, SearchOp, compare, lte, gte, lt, gt, settle, retrieve_cursor, search_all,
}
use rssdisk.JsonDb.Index.Entries.{Entry, pack, entry_at}
use rssdisk.JsonDb.Index.Rounds.{Given, count_below, behind}
use rssdisk.JsonDb.Index.Landing.{Hit, bound}
use rssdisk.JsonDb.Index.Cursor.{on}
use rssdisk.JsonDb.Index.Settled.{
  retrieve_cursor_lem, search_all-Lands, settle_lt_found, settle_lt_none, settle_gte,
  settle_gt_found, settle_gt_none, settle_lte,
}
use rssdisk.JsonDb.Fetch.{Readed, add_found, add_run_up, fetch_value, fetch_above, fetch_below}
use rssdisk.JsonDb.Fetch.Sets.{any, has, has-nil, hits, any_stretch, drop_step, any-take-suc}
use rssdisk.JsonDb.Fetch.Loops.{has-on, has-add_up, has-add_down, has-add_run_up, has-add_run_down}

if_true : {b : Bool} (m n : List (ℕ × ℕ)) → b ≡ true → (if b then m else n) ≡ m
if_true m n h = rw h

if_false : {b : Bool} (m n : List (ℕ × ℕ)) → b ≡ false → (if b then m else n) ≡ n
if_false m n h = rw h

module _ (readed : Readed) (es : List Entry) (val : ℕ) (g : Given es val) (o : ℕ) where
  abbrev adds : Entry → Bool
  adds = hits readed o

  fetch_above-on :
      (op : SearchOp) (c : ℕ) (f : Index)
      → retrieve_cursor (pack es) val op ≡ on es c c f
      → f.found ≡ true
      → f.max_cursor ≡ length es
      → c < length es
      → has o (fetch_above readed (pack es) val op) ≡ any adds (drop c es)
  unfolding fetch_above
  fetch_above-on op c f e found max inside =
      let n : c + 1 ≡ suc c = omega arith in
      let ret : List (ℕ × ℕ) = add_found readed (on es c c f) [] in
      rw e (
        ap (has o) (if_true _ _ found)
        ∙ has-add_up readed es val g o (f.max_cursor - (c + 1)) (c + 1) c f ret (omega arith)
        ∙ rw (has-on readed es val g o c c f [], has-nil o, n, drop_step c es inside)
            (ground arith))

  fetch_above-none :
      (op : SearchOp)
      → (retrieve_cursor (pack es) val op).found ≡ false
      → has o (fetch_above readed (pack es) val op) ≡ false
  unfolding fetch_above
  fetch_above-none op e = ap (has o) (if_false _ _ e) ∙ has-nil o

  fetch_below-on :
      (op : SearchOp) (d c : ℕ) (f : Index)
      → retrieve_cursor (pack es) val op ≡ on es d c f
      → f.found ≡ true
      → c ≤ length es
      → has o (fetch_below readed (pack es) val op) ≡ (any adds (take c es) || adds (entry_at es d))
  unfolding fetch_below
  fetch_below-on op d c f e found inside =
      let ret : List (ℕ × ℕ) = add_found readed (on es d c f) [] in
      rw e (
        ap (has o) (if_true _ _ found)
        ∙ has-add_down readed es val g o c d c f ret inside
        ∙ rw (has-on readed es val g o d c f [], has-nil o) (ground arith))

  fetch_below-none :
      (op : SearchOp)
      → (retrieve_cursor (pack es) val op).found ≡ false
      → has o (fetch_below readed (pack es) val op) ≡ false
  unfolding fetch_below
  fetch_below-none op e = ap (has o) (if_false _ _ e) ∙ has-nil o

  -- Where some entry has the value.
  module _ (present : count_below es val < behind es val) where
    some_entry : 0 < length es
    some_entry = omega (arith, bound es val g gt)

    hit : (op : SearchOp) → Hit es val (search_all (pack es) val op (length es))
    hit op = elim (search_all-Lands es val op g some_entry) [
      | inl h ↦ h
      | inr m ↦ absurd (omega (arith, m.absent))
    ]

    settled :
        (op : SearchOp)
        → retrieve_cursor (pack es) val op
          ≡ settle (pack es) val op (search_all (pack es) val op (length es)).f
    settled op = rw (retrieve_cursor_lem es val op some_entry) (rw (hit op).equal)

    pub fetch_gte :
        has o (fetch_above readed (pack es) val gte) ≡ any adds (drop (count_below es val) es)
    fetch_gte =
        let s = search_all (pack es) val gte (length es) in
        let h = hit gte in
        fetch_above-on gte (count_below es val) s.f (settled gte ∙ settle_gte es val g s h) h.found
          h.max (omega (arith, bound es val g gt))

    pub fetch_gt : has o (fetch_above readed (pack es) val gt) ≡ any adds (drop (behind es val) es)
    fetch_gt =
        let s = search_all (pack es) val gt (length es) in
        let h = hit gt in
        elim (dec_lt (behind es val) (length es)) [
          | yes room ↦
              fetch_above-on gt (behind es val) s.f (settled gt ∙ settle_gt_found es val g s h room)
                h.found h.max room
          | no end ↦
              let last : behind es val ≡ length es = omega (arith, bound es val g gt) in
              fetch_above-none gt
                (ap (λ (f : Index). f.found) (settled gt) ∙ settle_gt_none es val g s h last)
              ∙ sym (ap (any adds) (drop_all es (behind es val) (omega arith)))
        ]

    pub fetch_lt :
        has o (fetch_below readed (pack es) val lt) ≡ any adds (take (count_below es val) es)
    fetch_lt =
        let s = search_all (pack es) val lt (length es) in
        let h = hit lt in
        elim (dec_lt 0 (count_below es val)) [
          | yes pos ↦
              let n : count_below es val ≡ suc (count_below es val - 1) = omega arith in
              let inside : count_below es val - 1 < length es = omega (arith, bound es val g gt) in
              fetch_below-on lt (count_below es val - 1) (count_below es val - 1) s.f
                (settled lt ∙ settle_lt_found es val g s h pos) h.found (omega arith)
              ∙ sym (
                  ap (λ k. any adds (take k es)) n
                  ∙ any-take-suc adds (count_below es val - 1) es inside)
          | no first ↦
              let z : count_below es val ≡ 0 = omega arith in
              fetch_below-none lt
                (ap (λ (f : Index). f.found) (settled lt ∙ settle_lt_none es val g s h z))
              ∙ sym (ap (λ k. any adds (take k es)) z)
        ]

    last_counts :
        (n : ℕ)
        → 0 < n
        → n ≤ length es
        → (any adds (take (n - 1) es) || adds (entry_at es (n - 1))) ≡ any adds (take n es)
    last_counts n pos le =
        let e : n ≡ suc (n - 1) = omega arith in
        sym (ap (λ k. any adds (take k es)) e ∙ any-take-suc adds (n - 1) es (omega arith))

    pub fetch_lte :
        has o (fetch_below readed (pack es) val lte) ≡ any adds (take (behind es val) es)
    fetch_lte =
        let s = search_all (pack es) val lte (length es) in
        let h = hit lte in
        let u = behind es val in
        elim (settle_lte es val g s h) [
          | inl e ↦
              fetch_below-on lte (u - 1) (u - 1) s.f (settled lte ∙ e) h.found
                (omega (arith, bound es val g gt))
              ∙ last_counts u (omega arith) (bound es val g gt)
          | inr (e, last) ↦
              let counts : (any adds (take (length es - 1) es)
                    || adds (entry_at es (length es - 1)))
                  ≡ any adds (take (length es) es) =
                last_counts (length es) some_entry (omega arith) in
              fetch_below-on lte (length es - 1) (length es) s.f (settled lte ∙ e) h.found
                (omega arith)
              ∙ rw last (ground (arith, counts))
        ]

  -- A comparison with one value.
  pub fetch_value-Hit :
      (ret : List (ℕ × ℕ)) (s : Search)
      → Hit es val s
      → retrieve_cursor (pack es) val compare ≡ s.f
      → has o (fetch_value readed (pack es) val ret) ≡ (
          any adds (take (behind es val - count_below es val) (drop (count_below es val) es))
          || has o ret)
  unfolding fetch_value
  fetch_value-Hit ret s h e =
      let c = s.f.cursor in
      let shape : s.f ≡ on es c c s.f = ground (arith, h.value, h.offset, h.size) in
      let ret' : List (ℕ × ℕ) = add_found readed (on es c c s.f) ret in
      let up : List (ℕ × ℕ) =
        add_run_up readed (pack es) (s.f.max_cursor - (c + 1)) val (on es c (c + 1) s.f) ret' in
      let n : c + 1 ≡ suc c = omega arith in
      let high : c < behind es val = h.below in
      rw (e ∙ shape) (
        ap (has o) (if_true _ _ h.found)
        ∙ has-add_run_down readed es val g o c c c s.f up h.from (omega arith)
        ∙ ap (λ b. any adds (take (c - count_below es val) (drop (count_below es val) es)) || b)
            (has-add_run_up readed es val g o (s.f.max_cursor - (c + 1)) (c + 1) c s.f ret'
              (omega (arith, h.max, bound es val g gt)) (omega (arith, h.from)) (omega arith))
        ∙ rw
            (
              has-on readed es val g o c c s.f ret,
              n,
              any_stretch adds (count_below es val) c (behind es val) es h.from high
                  (bound es val g gt),
            )
            (ground arith))

  pub fetch_value_absent :
      (ret : List (ℕ × ℕ))
      → (retrieve_cursor (pack es) val compare).found ≡ false
      → behind es val ≡ count_below es val
      → has o (fetch_value readed (pack es) val ret) ≡ (
          any adds (take (behind es val - count_below es val) (drop (count_below es val) es))
          || has o ret)
  unfolding fetch_value
  fetch_value_absent ret e absent =
      let z : behind es val - count_below es val ≡ 0 = omega arith in
      rw z (ap (has o) (if_false _ _ e))
