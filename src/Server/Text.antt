-- ===== src/Server/Text.antt =====
-- Decimal numbers in text: `std::to_string`, and `basefunc_std::stoi` of libs/basefunc_std.h for an
-- int. An int is the pattern of its 32 bits.
use rssdisk.Base.{
  ℕ, zero, suc, ◌+◌, ◌-◌, ◌*◌, ◌/◌, ◌%◌, ◌^◌, ◌<◌, ◌≡◌, refl, arith, List, [], ◌∷◌, ◌++◌, Bool,
  true, false, ◌&&◌, Option, none, some, ltb, leb, ◌==◌, if◌then◌else◌,
}

digits : ℕ → ℕ → List ℕ
digits zero n = []
digits (suc fuel) n =
    let rest = digits fuel (n / 10) in
    if ltb n 10 then (48 + n) ∷ [] else rest ++ (48 + n % 10) ∷ []

-- A number below 10 ^ 20 has at most 20 digits.
unfoldable pub decimal : ℕ → List ℕ
unfolding digits
decimal n = digits 20 n

unfoldable pub to_string : ℕ → List ℕ
to_string n = if ltb n (2 ^ 31) then decimal n else 45 ∷ decimal (2 ^ 32 - n)

abbrev is_digit : ℕ → Bool
is_digit c = leb 48 c && leb c 57

unfoldable pub is_space : ℕ → Bool
is_space c = if c == 32 then true else leb 9 c && leb c 13

-- The digits at the front, on top of the number read so far.
read_digits : ℕ → List ℕ → ℕ
read_digits n [] = n
read_digits n (c ∷ cs) =
    let rest = read_digits (n * 10 + (c - 48)) cs in if is_digit c then rest else n

-- Without a digit at the front `std::stoi` throws.
unsigned : List ℕ → Option ℕ
unfolding read_digits
unsigned [] = none
unsigned (c ∷ cs) = if is_digit c then some (read_digits 0 (c ∷ cs)) else none

-- Neither does it answer a number out of the range of w bits.
in_range : ℕ → Bool → Option ℕ → Option ℕ
in_range w negative none = none
in_range w true (some n) = if leb n (2 ^ (w - 1)) then some ((2 ^ w - n) % 2 ^ w) else none
in_range w false (some n) = if ltb n (2 ^ (w - 1)) then some n else none

signed : ℕ → List ℕ → Option ℕ
signed w [] = none
signed w (c ∷ cs) =
    if c == 45
    then in_range w true (unsigned cs)
    else (if c == 43 then in_range w false (unsigned cs) else in_range w false (unsigned (c ∷ cs)))

std_stoi : ℕ → List ℕ → Option ℕ
std_stoi w [] = none
std_stoi w (c ∷ cs) = let rest = std_stoi w cs in if is_space c then rest else signed w (c ∷ cs)

abbrev or_keep : Option ℕ → ℕ → ℕ
or_keep none l = l
or_keep (some n) l = n

-- `stoi(str, l)`: what `l` is then. It keeps its value if the text is no number.
unfoldable pub stoi : List ℕ → ℕ → ℕ
unfolding std_stoi is_space signed unsigned in_range
stoi s l = or_keep (std_stoi 32 s) l

-- The same for an int64_t, by `std::stol`.
unfoldable pub stoi_i64 : List ℕ → ℕ → ℕ
unfolding std_stoi is_space signed unsigned in_range
stoi_i64 s l = or_keep (std_stoi 64 s) l

stoi_test : stoi (32 ∷ 45 ∷ 49 ∷ 50 ∷ 65 ∷ []) 0 ≡ 2 ^ 32 - 12
unfolding stoi std_stoi is_space signed unsigned in_range read_digits
stoi_test = refl

in_range-lt : (b : Bool) (o : Option ℕ) (n : ℕ) → in_range 64 b o ≡ some n → n < 2 ^ 64
unfolding in_range
in_range-lt b none n h = cc
in_range-lt true (some m) n h = ground arith
in_range-lt false (some m) n h = ground arith

signed-lt : (s : List ℕ) (n : ℕ) → signed 64 s ≡ some n → n < 2 ^ 64
unfolding signed
signed-lt [] n h = cc
signed-lt (c ∷ cs) n h = ground (
  arith,
  in_range-lt true (unsigned cs) n,
  in_range-lt false (unsigned cs) n,
  in_range-lt false (unsigned (c ∷ cs)) n,
)

std_stoi-lt : (s : List ℕ) (n : ℕ) → std_stoi 64 s ≡ some n → n < 2 ^ 64
unfolding std_stoi
std_stoi-lt [] n h = cc
std_stoi-lt (c ∷ cs) n h = ground (arith, signed-lt (c ∷ cs) n, std_stoi-lt cs n)

or_keep-lt : (o : Option ℕ) → ((n : ℕ) → o ≡ some n → n < 2 ^ 64) → or_keep o 0 < 2 ^ 64
or_keep-lt none h = omega arith
or_keep-lt (some n) h = h n refl

pub stoi_i64-lt : (s : List ℕ) → stoi_i64 s 0 < 2 ^ 64
unfolding stoi_i64
stoi_i64-lt s = or_keep-lt (std_stoi 64 s) (std_stoi-lt s)
