-- ===== src/Bitbase/Bits.antt =====
-- The bits of a byte. Each law is a table over the 256 bytes, checked by evaluation.
use rssdisk.Base.{
  ℕ, zero, suc, ◌*◌, ◌^◌, ◌≤◌, ◌<◌, ◌≡◌, refl, ◌⊎◌, Bool, true, false, not, ◌&&◌, ◌||◌, ltb, leb,
  ◌==◌, arith,
}
use rssdisk.Bitbase.{set_bit, unset_bit, is_bit_setted, max_bits_used, highest_bit}

-- The test holds for every number below the bound.
unfoldable pub for_all_below : ℕ → (ℕ → Bool) → Bool
for_all_below zero p = true
for_all_below (suc n) p = p n && for_all_below n p

pub for_all_below_sound :
    (n : ℕ) (p : ℕ → Bool) → for_all_below n p ≡ true → (x : ℕ) → x < n → p x ≡ true
unfolding for_all_below
for_all_below_sound zero p h x lt = absurd (omega arith)
for_all_below_sound (suc n) p h x lt = ground (arith, for_all_below_sound n p (ground arith) x)

abbrev iff : Bool → Bool → Bool
iff true b = b
iff false b = not b

iff→eq : (a b : Bool) → iff a b ≡ true → a ≡ b
iff→eq a b h = ground arith

abbrev set_agrees : ℕ → ℕ → ℕ → Bool
set_agrees n i j = iff (is_bit_setted (set_bit n i) j) (i == j || is_bit_setted n j)

abbrev unset_agrees : ℕ → ℕ → ℕ → Bool
unset_agrees n i j = iff (is_bit_setted (unset_bit 1 n i) j) (not (i == j) && is_bit_setted n j)

abbrev all_bits : (ℕ → ℕ → ℕ → Bool) → Bool
all_bits p = for_all_below 256 λ n. for_all_below 8 λ i. for_all_below 8 λ j. p n i j

all_bits_sound :
    (p : ℕ → ℕ → ℕ → Bool)
    → all_bits p ≡ true
    → (n i j : ℕ) → n < 256
    → i < 8
    → j < 8
    → p n i j ≡ true
all_bits_sound p h n i j hn hi hj =
    for_all_below_sound 8 (λ j. p n i j)
      (for_all_below_sound 8 (λ i. for_all_below 8 λ j. p n i j)
        (for_all_below_sound 256 (λ n. for_all_below 8 λ i. for_all_below 8 λ j. p n i j) h n hn) i
        hi)
      j hj

set_table : all_bits set_agrees ≡ true
unfolding for_all_below set_bit is_bit_setted
set_table = refl

unset_table : all_bits unset_agrees ≡ true
unfolding for_all_below unset_bit is_bit_setted
unset_table = refl

-- On a byte, setting one bit sets that bit and no other.
pub is_bit_setted-set_bit :
    (n i j : ℕ)
    → n < 256
    → i < 8
    → j < 8
    → is_bit_setted (set_bit n i) j ≡ (i == j || is_bit_setted n j)
is_bit_setted-set_bit n i j hn hi hj =
    iff→eq _ _ (all_bits_sound set_agrees set_table n i j hn hi hj)

-- On a byte, unsetting one bit clears that bit and no other.
pub is_bit_setted-unset_bit :
    (n i j : ℕ)
    → n < 256
    → i < 8
    → j < 8
    → is_bit_setted (unset_bit 1 n i) j ≡ (not (i == j) && is_bit_setted n j)
is_bit_setted-unset_bit n i j hn hi hj =
    iff→eq _ _ (all_bits_sound unset_agrees unset_table n i j hn hi hj)

-- A number of one byte lies below 2 ^ b for b its used bits, and not below 2 ^ (b - 1).
abbrev fits_used : ℕ → Bool
fits_used n = ltb n (2 ^ max_bits_used 1 n) && (n == 0 || leb (2 ^ max_bits_used 1 n) (2 * n))

used_table : for_all_below 256 fits_used ≡ true
unfolding for_all_below max_bits_used highest_bit is_bit_setted
used_table = refl

fits_used_sound :
    (n : ℕ)
    → fits_used n ≡ true
    → (n < 2 ^ max_bits_used 1 n) × ((n ≡ 0) ⊎ (2 ^ max_bits_used 1 n ≤ 2 * n))
fits_used_sound n h = ground arith

-- A number of one byte lies below 2 ^ b for b its used bits, and, unless it is 0, not below 2 ^
-- (b - 1).
pub max_bits_used_bounds :
    (n : ℕ) → n < 256 → (n < 2 ^ max_bits_used 1 n) × ((n ≡ 0) ⊎ (2 ^ max_bits_used 1 n ≤ 2 * n))
max_bits_used_bounds n h = fits_used_sound n (for_all_below_sound 256 fits_used used_table n h)
