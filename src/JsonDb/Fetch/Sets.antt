-- ===== src/JsonDb/Fetch/Sets.antt =====
-- Which entries of a list pass a test, where a value splits the list.
use rssdisk.Base.{
  ℕ, zero, suc, ◌+◌, ◌-◌, ◌^◌, ◌≤◌, ◌<◌, ◌≡◌, refl, ap, ◌∙◌, List, [], ◌∷◌, ◌++◌, Bool, true, false,
  not, ◌&&◌, ◌||◌, arith, ◌==◌, length, take, drop, drop-drop, All, nat_eq, Bool-cases, inl, inr,
}
use rssdisk.Base.Dict.{find, find-emplace}
use rssdisk.JsonDb.Index.Entries.{Entry, Fits, entry_at}
use rssdisk.JsonDb.Index.Sorted.{
  IsSorted, Above, rank, rank_injective, count_if, before, up_to, before-down, up_to-down,
}
use rssdisk.JsonDb.Index.{Index}
use rssdisk.JsonDb.Fetch.{Readed, allowed, is_there, add_found}

abbrev pub any : (Entry → Bool) → List Entry → Bool
any p [] = false
any p (e ∷ es) = p e || any p es

-- A document that the map has.
abbrev pub has : ℕ → List (ℕ × ℕ) → Bool
has o m = is_there (find o m)

-- An entry that puts this document there.
abbrev pub hits : Readed → ℕ → Entry → Bool
hits readed o e = allowed readed e.offset && (e.offset == o)

pub has-nil : (o : ℕ) → has o [] ≡ false
unfolding find
has-nil o = refl

pub has-add_found :
    (readed : Readed) (o : ℕ) (e : Entry) (f : Index) (ret : List (ℕ × ℕ))
    → f.dd.offset ≡ e.offset
    → has o (add_found readed f ret) ≡ (hits readed o e || has o ret)
unfolding add_found
has-add_found readed o e f ret h = rw h (elim (Bool-cases (allowed readed e.offset)) [
  | inr n ↦ rw n
  | inl y ↦ rw (y, find-emplace e.offset o f.dd.size ret) (ground arith)
])

pub any-append : (p : Entry → Bool) (xs ys : List Entry) → any p (xs ++ ys) ≡ (any p xs || any p ys)
any-append p [] ys = refl
any-append p (x ∷ xs) ys = ground (arith, any-append p xs ys)

pub drop_step :
    (c : ℕ) (es : List Entry) → c < length es → drop c es ≡ entry_at es c ∷ drop (suc c) es
drop_step c [] h = absurd (omega arith)
drop_step zero (e ∷ es) h = refl
drop_step (suc c) (e ∷ es) h = drop_step c es (omega arith)

pub any-take-suc :
    (p : Entry → Bool) (c : ℕ) (es : List Entry)
    → c < length es
    → any p (take (suc c) es) ≡ (any p (take c es) || p (entry_at es c))
any-take-suc p c [] h = absurd (omega arith)
any-take-suc p zero (e ∷ es) h = ground arith
any-take-suc p (suc c) (e ∷ es) h = ground (arith, any-take-suc p c es)

-- The entries that pass a test which fails from some value on, and those that do not.
module _ (q : ℕ → Bool) (down : (a b : ℕ) → rank a ≤ rank b → q b ≡ true → q a ≡ true)
    (p : Entry → Bool) where
  any-none : (es : List Entry) → count_if q es ≡ 0 → any (λ e. q e.i && p e) es ≡ false
  any-none [] h = refl
  any-none (e ∷ es) h = ground (arith, any-none es)

  count_if_none : (i : ℕ) (es : List Entry) → q i ≡ false → Above (rank i) es → count_if q es ≡ 0
  count_if_none i [] h k = refl
  count_if_none i (e ∷ es) h k = ground (arith, down i e.i k.0, count_if_none i es h k.1)

  pub any-front :
      (es : List Entry) → IsSorted es → any (λ e. q e.i && p e) es ≡ any p (take (count_if q es) es)
  any-front [] s = refl
  any-front (e ∷ es) s = elim (Bool-cases (q e.i)) [
    | inl y ↦ rw (y, any-front es s.1)
    | inr n ↦ let z : count_if q es ≡ 0 = count_if_none e.i es n s.0 in rw (n, z, any-none es z)
  ]

  any-all : (es : List Entry) → count_if q es ≡ 0 → any (λ e. not (q e.i) && p e) es ≡ any p es
  any-all [] h = refl
  any-all (e ∷ es) h = ground (arith, any-all es)

  pub any-back :
      (es : List Entry)
      → IsSorted es
      → any (λ e. not (q e.i) && p e) es ≡ any p (drop (count_if q es) es)
  any-back [] s = refl
  any-back (e ∷ es) s = elim (Bool-cases (q e.i)) [
    | inl y ↦ rw (y, any-back es s.1)
    | inr n ↦ let z : count_if q es ≡ 0 = count_if_none e.i es n s.0 in rw (n, z, any-all es z)
  ]

  pub count_if-drop :
      (c : ℕ) (es : List Entry)
      → IsSorted es
      → c ≤ count_if q es
      → count_if q (drop c es) ≡ count_if q es - c
  count_if-drop zero es s h = omega arith
  count_if-drop (suc c) [] s h = absurd (omega arith)
  count_if-drop (suc c) (e ∷ es) s h = elim (Bool-cases (q e.i)) [
    | inl y ↦ rw y (count_if-drop c es s.1 (ground arith) ∙ omega arith)
    | inr n ↦ absurd (ground (arith, count_if_none e.i es n s.0))
  ]

IsSorted-drop : (c : ℕ) (es : List Entry) → IsSorted es → IsSorted (drop c es)
IsSorted-drop zero es s = s
IsSorted-drop (suc c) [] s = tt
IsSorted-drop (suc c) (e ∷ es) s = IsSorted-drop c es s.1

equal_split :
    (val i : ℕ) → val < 2 ^ 64 → i < 2 ^ 64 → (i == val) ≡ (not (before val i) && up_to val i)
equal_split val i v h = ground (arith, rank_injective i val h v)

any_split :
    (val : ℕ) (p : Entry → Bool) (es : List Entry)
    → val < 2 ^ 64
    → All Fits es
    → any (λ e. (e.i == val) && p e) es
      ≡ any (λ e. not (before val e.i) && (up_to val e.i && p e)) es
any_split val p [] v f = refl
any_split val p (e ∷ es) v f =
    let h = equal_split val e.i v f.0.i_fits in rw (h, any_split val p es v f.1) (ground arith)

-- The entries that have the value stand together.
pub any_equal :
    (val : ℕ) (p : Entry → Bool) (es : List Entry)
    → IsSorted es
    → All Fits es
    → val < 2 ^ 64
    → count_if (before val) es ≤ count_if (up_to val) es
    → any (λ e. (e.i == val) && p e) es
      ≡ any p (
          take
            (count_if (up_to val) es - count_if (before val) es)
            (drop (count_if (before val) es) es))
any_equal val p es s f v le =
    let t = count_if (before val) es in
    any_split val p es v f
    ∙ any-back (before val) (before-down val) (λ e. up_to val e.i && p e) es s
    ∙ any-front (up_to val) (up_to-down val) p (drop t es) (IsSorted-drop t es s)
    ∙ ap (λ n. any p (take n (drop t es))) (count_if-drop (up_to val) (up_to-down val) p t es s le)

any-take_add :
    (p : Entry → Bool) (a b : ℕ) (es : List Entry)
    → any p (take (a + b) es) ≡ (any p (take a es) || any p (take b (drop a es)))
any-take_add p zero b es = let e : 0 + b ≡ b = omega arith in rw e
any-take_add p (suc a) b [] = let e : suc a + b ≡ suc (a + b) = omega arith in rw e (any-take_nil b)
  where
    any-take_nil : (b : ℕ) → false ≡ any p (take b [])
    any-take_nil zero = refl
    any-take_nil (suc b) = refl
any-take_add p (suc a) b (e ∷ es) =
    let s : suc a + b ≡ suc (a + b) = omega arith in rw (s, any-take_add p a b es) (ground arith)

-- A stretch of a list, from within.
pub any_stretch :
    (p : Entry → Bool) (t c u : ℕ) (es : List Entry)
    → t ≤ c
    → c < u
    → u ≤ length es
    → any p (take (u - t) (drop t es)) ≡ (
        any p (take (c - t) (drop t es))
        || (any p (take (u - suc c) (drop (suc c) es)) || p (entry_at es c)))
any_stretch p t c u es low high inside =
    let n : u - t ≡ (c - t) + suc (u - suc c) = omega arith in
    let at : drop (c - t) (drop t es) ≡ drop c es =
      drop-drop (c - t) t es ∙ ap (λ k. drop k es) (omega arith) in
    rw (n, any-take_add p (c - t) (suc (u - suc c)) (drop t es), at, drop_step c es (omega arith))
      (ground arith)

-- Either of two tests.
pub any-or :
    (a b p : Entry → Bool) (es : List Entry)
    → any (λ e. (a e || b e) && p e) es ≡ (any (λ e. a e && p e) es || any (λ e. b e && p e) es)
any-or a b p [] = refl
any-or a b p (e ∷ es) = rw (any-or a b p es) (ground arith)

pub any-never : (p : Entry → Bool) (es : List Entry) → any (λ e. false && p e) es ≡ false
any-never p [] = refl
any-never p (e ∷ es) = any-never p es
