-- ===== src/Bitbase/IntLists.antt =====
-- Lists of integers, packed (libs/bitbase.h, `comress_list`) and read into a set (`uncomress_list`).
use native.Mathlib.Nat.{mod-eq_of_lt, mul-le-mul_right, mul-le-mul_left}
use rssdisk.Base.{
  Bool, true, false, ◌||◌, ◌==◌, ltb, leb, ◌-◌, some, Bool-cases, inl, inr, ℕ, zero, suc, ◌+◌, ◌*◌,
  ◌%◌, ◌^◌, ◌≤◌, ◌<◌, ◌≡◌, refl, sym, ap, ◌∙◌, List, [], ◌∷◌, ◌++◌, arith, length, length-append,
  take, drop, All, le→leb, take-append_eq, drop-append_eq, append-nil, append_assoc,
}
use rssdisk.Bitbase.{
  radix, numeric_to_chars, chars_to_numeric, comress_list, uncomress_list, uncomress_loop,
  emplace_value,
}
use rssdisk.Bitbase.RoundTrip.{length-numeric_to_chars, chars_to_numeric-numeric_to_chars}

pub comress_list-append :
    (w : ℕ) (xs ys : List ℕ) → comress_list w (xs ++ ys) ≡ comress_list w xs ++ comress_list w ys
unfolding comress_list
comress_list-append w [] ys = refl
comress_list-append w (x ∷ xs) ys =
    rw (comress_list-append w xs ys, append_assoc (numeric_to_chars w x))

pub length-comress_list : (w : ℕ) (xs : List ℕ) → length (comress_list w xs) ≡ length xs * w
unfolding comress_list
length-comress_list w [] = omega arith
length-comress_list w (x ∷ xs) = omega (
  arith,
  length-append (numeric_to_chars w x) (comress_list w xs),
  length-numeric_to_chars w x,
  length-comress_list w xs,
)

-- The set of the values of a list, added to a set.
abbrev pub emplace_all : List ℕ → List ℕ → List ℕ
emplace_all [] s = s
emplace_all (x ∷ xs) s = emplace_all xs (emplace_value x s)

-- What the loop reads at the element behind `pre`.
read_at :
    (w : ℕ) (pre : List ℕ) (x : ℕ) (post : List ℕ)
    → x < radix w
    → chars_to_numeric w (take w (drop (length pre * w) (comress_list w (pre ++ x ∷ post)))) ≡ x
read_at w pre x post h =
    let pos : length pre * w ≡ length (comress_list w pre) = sym (length-comress_list w pre) in
    let at : drop (length pre * w) (comress_list w (pre ++ x ∷ post)) ≡ comress_list w (x ∷ post) =
      rw (comress_list-append w pre (x ∷ post)) (drop-append_eq (comress_list w pre) _ _ pos) in
    rw at (first w x post h)
  where
    first :
        (w x : ℕ) (post : List ℕ)
        → x < radix w
        → chars_to_numeric w (take w (comress_list w (x ∷ post))) ≡ x
    first w x post h =
        unfold comress_list in
        ap (chars_to_numeric w) (
          take-append_eq (numeric_to_chars w x) (comress_list w post) w
            (sym (length-numeric_to_chars w x)))
        ∙ chars_to_numeric-numeric_to_chars w w x (omega arith) h

loop_stops :
    (w fuel : ℕ) (d : List ℕ) (i : ℕ) (ret : List ℕ)
    → length d < i + w
    → w ≤ length d
    → uncomress_loop (suc fuel) w d i ret ≡ some ret
unfolding uncomress_loop
loop_stops w fuel d i ret h e = let t : leb i (length d - w) ≡ false = ground arith in rw t refl

loop_reads :
    (w fuel : ℕ) (d : List ℕ) (i : ℕ) (ret : List ℕ)
    → i + w ≤ length d
    → uncomress_loop (suc fuel) w d i ret
      ≡ uncomress_loop fuel w d
          ((i + w) % 2 ^ 32)
          (emplace_value (chars_to_numeric w (take w (drop i d))) ret)
unfolding uncomress_loop
loop_reads w fuel d i ret h = let t : leb i (length d - w) ≡ true = ground arith in rw t refl

-- After the part `pre` has been read, the loop reads the rest.
uncomress_loop-comress_list :
    (w fuel : ℕ) (pre post ret : List ℕ)
    → 0 < w
    → 0 < length pre + length post
    → length post < fuel
    → (length pre + length post + 1) * w < 2 ^ 32
    → All (λ x. x < radix w) post
    → uncomress_loop fuel w (comress_list w (pre ++ post)) (length pre * w) ret
      ≡ some (emplace_all post ret)
uncomress_loop-comress_list w zero pre post ret hw ne hf hs small = absurd (omega arith)
uncomress_loop-comress_list w (suc fuel) pre [] ret hw ne hf hs small =
    let size : length (comress_list w pre) ≡ length pre * w = length-comress_list w pre in
    let one : 1 * w ≤ length pre * w = mul-le-mul_right w (omega arith) in
    rw (append-nil pre) (loop_stops w fuel _ _ ret (omega arith) (omega arith))
uncomress_loop-comress_list w (suc fuel) pre (x ∷ post) ret hw ne hf hs small =
    let d = comress_list w (pre ++ x ∷ post) in
    let pre' : List ℕ = pre ++ x ∷ [] in
    let count : length pre' ≡ length pre + 1 = omega (arith, length-append pre (x ∷ [])) in
    let size : length d ≡ length (pre ++ x ∷ post) * w = length-comress_list w (pre ++ x ∷ post) in
    let total : length (pre ++ x ∷ post) ≡ length pre + suc (length post) = length-append pre _ in
    let scaled : length pre' * w ≡ length pre * w + w = ap (λ (t : ℕ). t * w) count ∙ omega arith in
    let bound : (length pre + 2) * w ≤ (length pre + suc (length post) + 1) * w =
      mul-le-mul_right w (omega arith) in
    let next : (length pre * w + w) % 2 ^ 32 ≡ length pre' * w =
      mod-eq_of_lt (omega arith) ∙ sym scaled in
    let length_d : length d ≡ (length pre + suc (length post)) * w =
      size ∙ ap (λ (t : ℕ). t * w) total in
    let again : uncomress_loop fuel w (comress_list w (pre' ++ post)) (length pre' * w)
          (emplace_value x ret)
        ≡ some (emplace_all post (emplace_value x ret)) =
      uncomress_loop-comress_list w fuel pre' post (emplace_value x ret) hw (omega arith)
        (omega arith) (rw count (omega arith)) small.1 in
    let regroup : pre' ++ post ≡ pre ++ x ∷ post = append_assoc pre (x ∷ []) post in
    loop_reads w fuel d (length pre * w) ret (omega arith)
    ∙ rw (next, read_at w pre x post small.0) (rw regroup at again)

pub uncomress_list-emplace_all :
    (w : ℕ) (xs : List ℕ)
    → 0 < w
    → (length xs + 1) * w < 2 ^ 32
    → All (λ x. x < radix w) xs
    → uncomress_list w (comress_list w xs) ≡ some (emplace_all xs [])
unfolding uncomress_list
uncomress_list-emplace_all w [] hw hs small = unfold comress_list in ground arith
uncomress_list-emplace_all w (x ∷ xs) hw hs small =
    let size : length (comress_list w (x ∷ xs)) ≡ suc (length xs) * w =
      length-comress_list w (x ∷ xs) in
    let one : 1 * w ≤ suc (length xs) * w = mul-le-mul_right w (omega arith) in
    let many : suc (length xs) * 1 ≤ suc (length xs) * w = mul-le-mul_left (suc (length xs)) hw in
    let start : 0 * w ≡ 0 = omega arith in
    rw (le→leb w (length (comress_list w (x ∷ xs))) (omega arith)) (
      rw start at (
        uncomress_loop-comress_list w (length (comress_list w (x ∷ xs)) + 1) [] (x ∷ xs) [] hw
          (omega arith) (omega arith) (omega arith) small))

-- Whether a value is in a list.
abbrev pub contains : ℕ → List ℕ → Bool
contains x [] = false
contains x (y ∷ ys) = (x == y) || contains x ys

-- Each value is less than all that follow, so that none stands twice.
abbrev pub IsAscending : List ℕ → Type 0
IsAscending [] = Unit
IsAscending (x ∷ xs) = All (λ y. x < y) xs × IsAscending xs

contains-emplace_value :
    (x r : ℕ) (s : List ℕ) → contains x (emplace_value r s) ≡ ((x == r) || contains x s)
unfolding emplace_value
contains-emplace_value x r [] = refl
contains-emplace_value x r (y ∷ ys) = ground (arith, contains-emplace_value x r ys)

contains-emplace_all :
    (x : ℕ) (xs s : List ℕ) → contains x (emplace_all xs s) ≡ (contains x xs || contains x s)
contains-emplace_all x [] s = refl
contains-emplace_all x (y ∷ ys) s =
    contains-emplace_all x ys (emplace_value y s) ∙ ground (arith, contains-emplace_value x y s)

emplace_value-All :
    (a r : ℕ) (s : List ℕ) → a < r → All (λ y. a < y) s → All (λ y. a < y) (emplace_value r s)
unfolding emplace_value
emplace_value-All a r [] h v = (h, tt)
emplace_value-All a r (x ∷ xs) h v = elim (Bool-cases (x == r)) [
  | inl e ↦ rw e v
  | inr e ↦ elim (Bool-cases (ltb r x)) [
    | inl t ↦ rw (e, t) (h, v)
    | inr t ↦ rw (e, t) (v.0, emplace_value-All a r xs h v.1)
  ]
]

All-lt : (r x : ℕ) (xs : List ℕ) → r < x → All (λ y. x < y) xs → All (λ y. r < y) xs
All-lt r x [] h v = tt
All-lt r x (y ∷ ys) h v = (omega (arith, h, v.0), All-lt r x ys h v.1)

emplace_value-IsAscending : (r : ℕ) (s : List ℕ) → IsAscending s → IsAscending (emplace_value r s)
unfolding emplace_value
emplace_value-IsAscending r [] v = (tt, tt)
emplace_value-IsAscending r (x ∷ xs) v = elim (Bool-cases (x == r)) [
  | inl e ↦ rw e v
  | inr e ↦ elim (Bool-cases (ltb r x)) [
    | inl t ↦ let less : r < x = ground arith in rw (e, t) ((less, All-lt r x xs less v.0), v)
    | inr t ↦
        let more : x < r = ground arith in
        rw (e, t) (emplace_value-All x r xs more v.0, emplace_value-IsAscending r xs v.1)
  ]
]

emplace_all-IsAscending : (xs s : List ℕ) → IsAscending s → IsAscending (emplace_all xs s)
emplace_all-IsAscending [] s v = v
emplace_all-IsAscending (x ∷ xs) s v =
    emplace_all-IsAscending xs (emplace_value x s) (emplace_value-IsAscending x s v)

-- Integers of w bytes, w not 0, of less than 4 GB packed, in any order and each any number of
-- times, are read back as the set of them: it has exactly these values, and each once.
pub uncomress_list-comress_list :
    (w : ℕ) (xs : List ℕ)
    → 0 < w
    → (length xs + 1) * w < 2 ^ 32
    → All (λ x. x < radix w) xs
    → (s : List ℕ) × (uncomress_list w (comress_list w xs) ≡ some s)
      × IsAscending s
      × ((x : ℕ) → contains x s ≡ contains x xs)
uncomress_list-comress_list w xs hw hs small = (
  emplace_all xs [],
  uncomress_list-emplace_all w xs hw hs small,
  emplace_all-IsAscending xs [] tt,
  λ x. contains-emplace_all x xs [] ∙ ground arith,
)
