-- ===== src/JsonDb/Fetch/Scan.antt =====
-- `fetchIndexedData` against a scan of all entries, which is what `matching` does with documents.
use rssdisk.Base.{
  ℕ, ◌-◌, ◌^◌, ◌<◌, ◌≡◌, refl, sym, ap, ◌∙◌, inl, inr, List, [], ◌∷◌, Bool, false, not, ◌&&◌, ◌||◌,
  arith, ◌==◌, length, take, drop, All,
}
use rssdisk.Base.Words.{ltb_i64}
use rssdisk.Server.Text.{stoi_i64, stoi_i64-lt}
use rssdisk.JsonDb.Index.{Index, compare, settle, retrieve_cursor, search_all}
use rssdisk.JsonDb.Index.Entries.{Entry, Fits, pack}
use rssdisk.JsonDb.Index.Sorted.{IsSorted, before, up_to, before-down, up_to-down}
use rssdisk.JsonDb.Index.Rounds.{Given, count_below, behind}
use rssdisk.JsonDb.Index.Landing.{count_below-le}
use rssdisk.JsonDb.Index.Settled.{retrieve_cursor_lem, search_all-Lands}
use rssdisk.JsonDb.Query.{Query, TypeOperation, ValSearch, in_bounds}
use rssdisk.JsonDb.Fetch.{Readed, fetch_value, fetch_values, fetch_op, fetch_indexed_data}
use rssdisk.JsonDb.Fetch.Sets.{
  any, has, has-nil, hits, any-front, any-back, any_equal, any-or, any-never,
}
use rssdisk.JsonDb.Fetch.Exact.{
  fetch_gte, fetch_gt, fetch_lt, fetch_lte, fetch_value-Hit, fetch_value_absent,
}

-- Whether a value is one of those that a query compares with.
abbrev pub is_value : List ValSearch → ℕ → Bool
is_value [] i = false
is_value (v ∷ vs) i = i == stoi_i64 v.indexed 0 || is_value vs i

-- Whether a query selects a value.
abbrev pub selects : TypeOperation → Query → ℕ → Bool
selects TypeOperation.compare srch i = is_value srch.i i
selects op srch i = in_bounds op srch.min srch.max i

-- The index is in order, and small enough to be searched.
pub record IsIndex (es : List Entry) : Type 0 where
  pub fits : All Fits es
  pub small : length es < 2 ^ 60
  pub sorted : IsSorted es

-- Some entry has the value.
abbrev pub Occurs : List Entry → ℕ → Type 0
Occurs es val = (val < 2 ^ 64) × (count_below es val < behind es val)

-- A comparison, or a bound on one side at a value that some entry has.
abbrev pub IsServed : List Entry → TypeOperation → Query → Type 0
IsServed es TypeOperation.compare srch = Unit
IsServed es TypeOperation.gt srch = Occurs es srch.min
IsServed es TypeOperation.gte srch = Occurs es srch.min
IsServed es TypeOperation.lt srch = Occurs es srch.max
IsServed es TypeOperation.lte srch = Occurs es srch.max
IsServed es TypeOperation.range_lte_gte srch = ⊥
IsServed es TypeOperation.range_lt_gte srch = ⊥
IsServed es TypeOperation.range_lte_gt srch = ⊥
IsServed es TypeOperation.range_lt_gt srch = ⊥

module _ (readed : Readed) (es : List Entry) (x : IsIndex es) (o : ℕ) where
  given : (val : ℕ) → val < 2 ^ 64 → Given es val
  given val h = record { fits = x.fits; small = x.small; sorted = x.sorted; val_fits = h }

  value_found :
      (val : ℕ) (ret : List (ℕ × ℕ))
      → Given es val
      → 0 < length es
      → has o (fetch_value readed (pack es) val ret) ≡ (
          any
            (hits readed o)
            (take (behind es val - count_below es val) (drop (count_below es val) es))
          || has o ret)
  value_found val ret g pos =
      let s = search_all (pack es) val compare (length es) in
      elim (search_all-Lands es val compare g pos) [
        | inl h ↦
            let e : retrieve_cursor (pack es) val compare ≡ s.f =
              rw (retrieve_cursor_lem es val compare pos) (rw h.equal (unfold settle in refl)) in
            fetch_value-Hit readed es val g o ret s h e
        | inr m ↦
            let e : retrieve_cursor (pack es) val compare ≡ s.f =
              rw (retrieve_cursor_lem es val compare pos) (rw m.equal) in
            fetch_value_absent readed es val g o ret
              (ap (λ (f : Index). f.found) e ∙ m.compare_found refl) m.absent
      ]

-- An empty index answers nothing.
value_none :
    (readed : Readed) (val : ℕ) (ret : List (ℕ × ℕ)) → fetch_value readed (pack []) val ret ≡ ret
unfolding fetch_value retrieve_cursor pack
value_none readed val ret = refl

value_scan :
    (readed : Readed) (es : List Entry) (x : IsIndex es) (o val : ℕ) (ret : List (ℕ × ℕ))
    → val < 2 ^ 64
    → has o (fetch_value readed (pack es) val ret)
      ≡ (any (λ e. (e.i == val) && hits readed o e) es || has o ret)
value_scan readed [] x o val ret h = ap (has o) (value_none readed val ret)
value_scan readed (e ∷ es) x o val ret h =
    let g = given readed (e ∷ es) x o val h in
    value_found readed (e ∷ es) x o val ret g (omega arith)
    ∙ ap (λ b. b || has o ret)
        (sym (
          any_equal val (hits readed o) (e ∷ es) x.sorted x.fits h
            (count_below-le (e ∷ es) val g compare)))

values_scan :
    (readed : Readed) (es : List Entry) (x : IsIndex es) (o : ℕ) (vs : List ValSearch)
    (ret : List (ℕ × ℕ))
    → has o (fetch_values readed (pack es) vs ret)
      ≡ (any (λ e. is_value vs e.i && hits readed o e) es || has o ret)
unfolding fetch_values
values_scan readed es x o [] ret = rw (any-never (hits readed o) es)
values_scan readed es x o (v ∷ vs) ret =
    let val = stoi_i64 v.indexed 0 in
    values_scan readed es x o vs (fetch_value readed (pack es) val ret)
    ∙ rw
        (
          value_scan readed es x o val ret (stoi_i64-lt v.indexed),
          any-or (λ e. e.i == val) (λ e. is_value vs e.i) (hits readed o) es,
        )
        (ground arith)

any-not-not :
    (a p : Entry → Bool) (es : List Entry)
    → any (λ e. not (not (a e)) && p e) es ≡ any (λ e. a e && p e) es
any-not-not a p [] = refl
any-not-not a p (e ∷ es) = rw (any-not-not a p es) (ground arith)

op_scan :
    (readed : Readed) (es : List Entry) (x : IsIndex es) (o : ℕ) (op : TypeOperation) (srch : Query)
    → IsServed es op srch
    → has o (fetch_op readed (pack es) op srch)
      ≡ any (λ e. selects op srch e.i && hits readed o e) es
unfolding fetch_op in_bounds
op_scan readed es x o TypeOperation.compare srch h =
    values_scan readed es x o srch.i [] ∙ rw (has-nil o) (ground arith)
op_scan readed es x o TypeOperation.gt srch h =
    fetch_gt readed es srch.min (given readed es x o srch.min h.0) o h.1
    ∙ sym (any-back (up_to srch.min) (up_to-down srch.min) (hits readed o) es x.sorted)
    ∙ any-not-not (λ e. ltb_i64 srch.min e.i) (hits readed o) es
op_scan readed es x o TypeOperation.gte srch h =
    fetch_gte readed es srch.min (given readed es x o srch.min h.0) o h.1
    ∙ sym (any-back (before srch.min) (before-down srch.min) (hits readed o) es x.sorted)
op_scan readed es x o TypeOperation.lt srch h =
    fetch_lt readed es srch.max (given readed es x o srch.max h.0) o h.1
    ∙ sym (any-front (before srch.max) (before-down srch.max) (hits readed o) es x.sorted)
op_scan readed es x o TypeOperation.lte srch h =
    fetch_lte readed es srch.max (given readed es x o srch.max h.0) o h.1
    ∙ sym (any-front (up_to srch.max) (up_to-down srch.max) (hits readed o) es x.sorted)
op_scan readed es x o TypeOperation.range_lte_gte srch h = absurd h
op_scan readed es x o TypeOperation.range_lt_gte srch h = absurd h
op_scan readed es x o TypeOperation.range_lte_gt srch h = absurd h
op_scan readed es x o TypeOperation.range_lt_gt srch h = absurd h

-- In an index whose values are in order, of fewer than 2 ^ 60 entries, a comparison with any
-- values, or a bound on one side whose limit is the value of some entry, finds exactly the
-- offsets that a scan of all entries finds, among those that earlier indices left.
pub fetch_indexed_data-scan :
    (readed : Readed) (es : List Entry) (srch : Query) (o : ℕ)
    → IsIndex es
    → IsServed es srch.op srch
    → has o (fetch_indexed_data srch (pack es) readed)
      ≡ any (λ e. selects srch.op srch e.i && hits readed o e) es
unfolding fetch_indexed_data
fetch_indexed_data-scan readed es srch o x h = op_scan readed es x o srch.op srch h
