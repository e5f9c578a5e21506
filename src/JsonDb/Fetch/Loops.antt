-- ===== src/JsonDb/Fetch/Loops.antt =====
-- Which documents the loops of `fetchIndexedData` add.
use native.Mathlib.Decide.{dec_lt}
use rssdisk.Base.{
  ℕ, zero, suc, ◌+◌, ◌-◌, ◌≤◌, ◌<◌, ◌≡◌, refl, ap, ◌∙◌, List, [], ◌∷◌, Bool, ◌||◌, arith, length,
  take, drop, drop_all, length-drop,
}
use rssdisk.JsonDb.Index.{Index, gt}
use rssdisk.JsonDb.Index.Entries.{Entry, pack, entry_at}
use rssdisk.JsonDb.Index.Rounds.{Given, count_below, behind}
use rssdisk.JsonDb.Index.Landing.{bound}
use rssdisk.JsonDb.Index.Cursor.{on, reads, same, low_differs, high_differs}
use rssdisk.JsonDb.Fetch.{Readed, add_found, add_run_up, add_run_down, add_up, add_down}
use rssdisk.JsonDb.Fetch.Sets.{any, has, hits, has-add_found, drop_step, any-take-suc}

entry_at-drop : (t c : ℕ) (es : List Entry) → entry_at (drop t es) c ≡ entry_at es (t + c)
entry_at-drop zero c es = let e : 0 + c ≡ c = omega arith in rw e
entry_at-drop (suc t) c [] = refl
entry_at-drop (suc t) c (e ∷ es) =
    let s : suc t + c ≡ suc (t + c) = omega arith in rw s (entry_at-drop t c es)

module _ (readed : Readed) (es : List Entry) (val : ℕ) (g : Given es val) (o : ℕ) where
  abbrev pub adds : Entry → Bool
  adds = hits readed o

  pub has-on :
      (c n : ℕ) (f : Index) (ret : List (ℕ × ℕ))
      → has o (add_found readed (on es c n f) ret) ≡ (adds (entry_at es c) || has o ret)
  has-on c n f ret = has-add_found readed o (entry_at es c) (on es c n f) ret refl

  pub has-add_up :
      (r c d : ℕ) (f : Index) (ret : List (ℕ × ℕ))
      → c + r ≡ length es
      → has o (add_up readed (pack es) r (on es d c f) ret) ≡ (any adds (drop c es) || has o ret)
  unfolding add_up
  has-add_up zero c d f ret h = let e : drop c es ≡ [] = drop_all es c (omega arith) in rw e
  has-add_up (suc r) c d f ret h =
      let inside : c < length es = omega arith in
      let e : c + 1 ≡ suc c = omega arith in
      rw (reads es val g c (on es d c f) inside, e)
        (has-add_up r (suc c) c f (add_found readed (on es c c f) ret) (omega arith)
          ∙ rw (has-on c c f ret, drop_step c es inside) (ground arith))

  pub has-add_down :
      (c d n : ℕ) (f : Index) (ret : List (ℕ × ℕ))
      → c ≤ length es
      → has o (add_down readed (pack es) c (on es d n f) ret) ≡ (any adds (take c es) || has o ret)
  unfolding add_down
  has-add_down zero d n f ret h = refl
  has-add_down (suc c) d n f ret h =
      let inside : c < length es = omega arith in
      rw (reads es val g c (on es d c f) inside) (
        has-add_down c c c f (add_found readed (on es c c f) ret) (omega arith)
        ∙ rw (has-on c c f ret, any-take-suc adds c es inside) (ground arith))

  -- Up the run from an entry with the value, to the first greater one.
  pub has-add_run_up :
      (r c d : ℕ) (f : Index) (ret : List (ℕ × ℕ))
      → c + r ≡ length es
      → count_below es val ≤ c
      → c ≤ behind es val
      → has o (add_run_up readed (pack es) r val (on es d c f) ret)
        ≡ (any adds (take (behind es val - c) (drop c es)) || has o ret)
  unfolding add_run_up
  has-add_run_up zero c d f ret h low high =
      let e : behind es val - c ≡ 0 = omega (arith, bound es val g gt) in rw e
  has-add_run_up (suc r) c d f ret h low high =
      let inside : c < length es = omega arith in
      let e : c + 1 ≡ suc c = omega arith in
      elim (dec_lt c (behind es val)) [
        | yes on_run ↦
            let n : behind es val - c ≡ suc (behind es val - suc c) = omega arith in
            rw (reads es val g c (on es d c f) inside, same es val g c low on_run, e)
              (has-add_run_up r (suc c) c f (add_found readed (on es c c f) ret) (omega arith)
                  (omega arith) on_run
                ∙ rw (has-on c c f ret, n, drop_step c es inside) (ground arith))
        | no over ↦
            let n : behind es val - c ≡ 0 = omega arith in
            rw (
              reads es val g c (on es d c f) inside,
              high_differs es val g c (omega arith) inside,
              n,
            )
      ]

  -- And down, to the first entry with it.
  pub has-add_run_down :
      (c d n : ℕ) (f : Index) (ret : List (ℕ × ℕ))
      → count_below es val ≤ c
      → c ≤ behind es val
      → has o (add_run_down readed (pack es) c val (on es d n f) ret)
        ≡ (any adds (take (c - count_below es val) (drop (count_below es val) es)) || has o ret)
  unfolding add_run_down
  has-add_run_down zero d n f ret low high =
      let e : 0 - count_below es val ≡ 0 = omega arith in rw e
  has-add_run_down (suc c) d n f ret low high =
      let inside : c < length es = omega (arith, bound es val g gt) in
      let t = count_below es val in
      elim (dec_lt c t) [
        | yes under ↦
            let z : suc c - t ≡ 0 = omega arith in
            rw (reads es val g c (on es d n f) inside, low_differs es val g c under, z)
        | no more ↦
            let z : suc c - t ≡ suc (c - t) = omega arith in
            let there : entry_at (drop t es) (c - t) ≡ entry_at es c =
              entry_at-drop t (c - t) es ∙ ap (entry_at es) (omega arith) in
            let small : c - t < length (drop t es) = omega (arith, length-drop t es) in
            rw
              (
                reads es val g c (on es d n f) inside,
                same es val g c (omega arith) (omega arith),
                z,
              )
              (has-add_run_down c c n f (add_found readed (on es c n f) ret) (omega arith)
                  (omega arith)
                ∙ rw (has-on c n f ret, any-take-suc adds (c - t) (drop t es) small, there)
                    (ground arith))
      ]
