-- ===== src/Bitbase/RoundTrip.antt =====
-- Packing and unpacking are inverse.
use native.Mathlib.Nat.{
  mod-eq_of_lt, mod-lt, div-eq_of_lt, div-add-mod', pow-le-pow_right, add-mul-div_right,
  div-lt_iff_lt-mul,
}
use native.Mathlib.Numerals.{towards_suc}
use mathlib.Core.Path.{ap₂}
use rssdisk.Base.{
  ℕ, zero, suc, ◌+◌, ◌*◌, ◌/◌, ◌%◌, ◌≤◌, ◌<◌, ◌≡◌, refl, ap, ◌∙◌, List, [], ◌∷◌, arith, length, All,
}
use rssdisk.Bitbase.{radix, numeric_to_chars, chars_to_numeric}

abbrev pub IsByte : ℕ → Type 0
IsByte b = b < 256

pub radix-suc : (k : ℕ) → radix (suc k) ≡ 256 * radix k
radix-suc k = let e : 8 * suc k ≡ 8 * k + 8 = omega arith in rw e (simp towards_suc (omega arith))

pub radix_pos : (k : ℕ) → 0 < radix k
radix_pos zero = omega arith
radix_pos (suc k) = omega (arith, radix-suc k, radix_pos k)

pub radix_mono : (k w : ℕ) → k ≤ w → radix k ≤ radix w
radix_mono k w h = pow-le-pow_right {n = 2} (omega arith) {i = 8 * k} {j = 8 * w} (omega arith)

pub length-numeric_to_chars : (k n : ℕ) → length (numeric_to_chars k n) ≡ k
unfolding numeric_to_chars
length-numeric_to_chars zero n = refl
length-numeric_to_chars (suc k) n = ap suc (length-numeric_to_chars k n)

pub numeric_to_chars-IsByte : (k n : ℕ) → All IsByte (numeric_to_chars k n)
unfolding numeric_to_chars
numeric_to_chars-IsByte zero n = tt
numeric_to_chars-IsByte (suc k) n = (omega arith, numeric_to_chars-IsByte k n)

-- The digits of the low k bytes do not depend on the rest.
numeric_to_chars_high : (k h n : ℕ) → numeric_to_chars k (h * radix k + n) ≡ numeric_to_chars k n
unfolding numeric_to_chars
numeric_to_chars_high zero h n = refl
numeric_to_chars_high (suc k) h n =
    let split : h * radix (suc k) + n ≡ h * 256 * radix k + n =
      omega (arith, ap (λ (t : ℕ). h * t) (radix-suc k)) in
    let head : (n + h * 256 * radix k) / radix k ≡ n / radix k + h * 256 =
      add-mul-div_right n (h * 256) (radix_pos k) in
    let swap : h * 256 * radix k + n ≡ n + h * 256 * radix k = omega arith in
    ap₂ ◌∷◌ (rw (split, swap, head) (omega arith)) (rw split (numeric_to_chars_high k (h * 256) n))

low_digits : (k n : ℕ) → numeric_to_chars k n ≡ numeric_to_chars k (n % radix k)
low_digits k n =
    let split : n ≡ n / radix k * radix k + n % radix k = omega (arith, div-add-mod' n (radix k)) in
    ap (numeric_to_chars k) split ∙ numeric_to_chars_high k (n / radix k) (n % radix k)

-- A number that fits k bytes is read back from them at any type of k bytes or more.
pub chars_to_numeric-numeric_to_chars :
    (w k n : ℕ) → k ≤ w → n < radix k → chars_to_numeric w (numeric_to_chars k n) ≡ n
unfolding chars_to_numeric numeric_to_chars
chars_to_numeric-numeric_to_chars w zero n h fits = omega arith
chars_to_numeric-numeric_to_chars w (suc k) n h fits =
    let high : n / radix k < 256 =
      (div-lt_iff_lt-mul (radix_pos k)).1 (omega (arith, radix-suc k)) in
    let low : chars_to_numeric w (numeric_to_chars k n) ≡ n % radix k =
      ap (chars_to_numeric w) (low_digits k n)
      ∙ chars_to_numeric-numeric_to_chars w k (n % radix k) (omega arith)
          (mod-lt n (radix_pos k)) in
    let digit : n / radix k % 256 ≡ n / radix k = omega arith in
    let small : n < radix w = omega (arith, radix_mono (suc k) w h) in
    rw (low, length-numeric_to_chars k n, digit)
      (ap (λ t. t % radix w) (omega (arith, div-add-mod' n (radix k))) ∙ mod-eq_of_lt small)

pub chars_to_numeric-lt : (w : ℕ) (t : List ℕ) → chars_to_numeric w t < radix w
unfolding chars_to_numeric
chars_to_numeric-lt w [] = radix_pos w
chars_to_numeric-lt w (c ∷ cs) = mod-lt _ (radix_pos w)

-- One more byte in front of a sum that fits.
add_digit : (c p n : ℕ) → IsByte c → n < radix p → n + c * radix p < radix (suc p)
add_digit c p n hc h = grind (arith, radix-suc p)

read_digit :
    (w c : ℕ) (cs : List ℕ)
    → IsByte c
    → chars_to_numeric w cs < radix (length cs)
    → length cs < w
    → chars_to_numeric w (c ∷ cs) ≡ chars_to_numeric w cs + c * radix (length cs)
unfolding chars_to_numeric
read_digit w c cs hc rest h = mod-eq_of_lt (
    omega (
      arith,
      add_digit c (length cs) (chars_to_numeric w cs) hc rest,
      radix_mono (suc (length cs)) w h,
    ))

-- A string of at most w bytes is read without wrapping.
pub chars_to_numeric_fits :
    (w : ℕ) (t : List ℕ) → All IsByte t → length t ≤ w → chars_to_numeric w t < radix (length t)
chars_to_numeric_fits w [] b h = unfold chars_to_numeric in omega arith
chars_to_numeric_fits w (c ∷ cs) (hc, hcs) h =
    let rest = chars_to_numeric_fits w cs hcs (omega arith) in
    rw (read_digit w c cs hc rest h) (add_digit c (length cs) (chars_to_numeric w cs) hc rest)

numeric_to_chars-suc :
    (k n : ℕ) → numeric_to_chars (suc k) n ≡ (n / radix k % 256) ∷ numeric_to_chars k n
unfolding numeric_to_chars
numeric_to_chars-suc k n = refl

-- Every string of at most w bytes is written back from the number that it reads as.
pub numeric_to_chars-chars_to_numeric :
    (w : ℕ) (t : List ℕ)
    → All IsByte t
    → length t ≤ w
    → numeric_to_chars (length t) (chars_to_numeric w t) ≡ t
numeric_to_chars-chars_to_numeric w [] b h = unfold numeric_to_chars in refl
numeric_to_chars-chars_to_numeric w (c ∷ cs) (hc, hcs) h =
    let rest = chars_to_numeric_fits w cs hcs (omega arith) in
    let n = chars_to_numeric w cs in
    let p = length cs in
    let head : (n + c * radix p) / radix p % 256 ≡ c =
      rw (add-mul-div_right n c (radix_pos p), div-eq_of_lt rest) (omega arith) in
    let tail : numeric_to_chars p (n + c * radix p) ≡ cs =
      let swap : n + c * radix p ≡ c * radix p + n = omega arith in
      rw (swap, numeric_to_chars_high p c n)
        (numeric_to_chars-chars_to_numeric w cs hcs (omega arith)) in
    rw (read_digit w c cs hc rest h, numeric_to_chars-suc p) (ap₂ ◌∷◌ head tail)
