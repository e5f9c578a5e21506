-- ===== src/JsonDb/Index/Sorted.antt =====
-- Indices whose values are in order, as signed numbers of 64 bits, and where a value splits them.
use rssdisk.Base.{
  ℕ, zero, suc, ◌+◌, ◌%◌, ◌^◌, ◌≤◌, ◌<◌, ◌≡◌, refl, List, [], ◌∷◌, Bool, true, false, not, arith,
  if◌then◌else◌, length, All, Bool-cases, inl, inr,
}
use rssdisk.Base.Words.{ltb_i64}
use rssdisk.JsonDb.Index.Entries.{Entry, entry_at}

-- An int64_t by its place in their order.
abbrev pub rank : ℕ → ℕ
rank i = (i + 2 ^ 63) % 2 ^ 64

abbrev pub Above : ℕ → List Entry → Type 0
Above r = All λ e. r ≤ rank e.i

abbrev pub IsSorted : List Entry → Type 0
IsSorted [] = Unit
IsSorted (e ∷ es) = Above (rank e.i) es × IsSorted es

-- How many entries have a value that passes the test.
abbrev pub count_if : (ℕ → Bool) → List Entry → ℕ
count_if p [] = 0
count_if p (e ∷ es) = if p e.i then suc (count_if p es) else count_if p es

-- `i < val`, and `i <= val`.
abbrev pub before : ℕ → ℕ → Bool
before val i = ltb_i64 i val

abbrev pub up_to : ℕ → ℕ → Bool
up_to val i = not (ltb_i64 val i)

pub rank_injective : (a b : ℕ) → a < 2 ^ 64 → b < 2 ^ 64 → rank a ≡ rank b → a ≡ b
rank_injective a b ha hb h = omega arith

pub count_if-le : (p : ℕ → Bool) (es : List Entry) → count_if p es ≤ length es
count_if-le p [] = omega arith
count_if-le p (e ∷ es) = ground (arith, count_if-le p es)

-- A test that holds of all smaller values with a value holds of the entries at the front.
module _ (p : ℕ → Bool) (down : (a b : ℕ) → rank a ≤ rank b → p b ≡ true → p a ≡ true) where
  count_if-Above : (i : ℕ) (es : List Entry) → p i ≡ false → Above (rank i) es → count_if p es ≡ 0
  count_if-Above i [] no_i h = refl
  count_if-Above i (e ∷ es) no_i h = ground (arith, down i e.i h.0, count_if-Above i es no_i h.1)

  pub count_if-front :
      (es : List Entry) (c : ℕ) → IsSorted es → c < count_if p es → p (entry_at es c).i ≡ true
  count_if-front [] c s h = absurd (omega arith)
  count_if-front (e ∷ es) zero s h = ground (arith, count_if-Above e.i es)
  count_if-front (e ∷ es) (suc c) s h =
      ground (arith, count_if-Above e.i es, count_if-front es c s.1)

  pub count_if-back :
      (es : List Entry) (c : ℕ)
      → IsSorted es
      → count_if p es ≤ c
      → c < length es
      → p (entry_at es c).i ≡ false
  count_if-back [] c s h lt = absurd (omega arith)
  count_if-back (e ∷ es) zero s h lt = ground arith
  count_if-back (e ∷ es) (suc c) s h lt = elim (Bool-cases (p e.i)) [
    | inl y ↦ count_if-back es c s.1 (ground arith) (omega arith)
    | inr n ↦ count_if-back es c s.1 (ground (arith, count_if-Above e.i es n s.0)) (omega arith)
  ]

pub before-down : (val a b : ℕ) → rank a ≤ rank b → before val b ≡ true → before val a ≡ true
before-down val a b h k = ground arith

pub up_to-down : (val a b : ℕ) → rank a ≤ rank b → up_to val b ≡ true → up_to val a ≡ true
up_to-down val a b h k = ground arith

pub before-le-up_to :
    (val : ℕ) (es : List Entry) → count_if (before val) es ≤ count_if (up_to val) es
before-le-up_to val [] = omega arith
before-le-up_to val (e ∷ es) = ground (arith, before-le-up_to val es)
