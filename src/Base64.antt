-- ===== src/Base64.antt =====
-- libs/base64.cpp: `base64_encode` and `base64_decode`, by which the operation log's records travel.
-- On a byte `(c & 0xfc) >> 2` is c / 4, `(c & 0x03) << 4` is c % 4 * 16, and so on.
pub mod RoundTrip
pub mod Examples
use rssdisk.Base.{
  ℕ, zero, suc, ◌+◌, ◌*◌, ◌/◌, ◌%◌, ◌^◌, List, [], ◌∷◌, ◌++◌, Bool, true, false, ◌==◌, leb, ltb,
  length, take, Option, none, some, ◌&&◌, ◌||◌, if◌then◌else◌,
}

-- The letters from a code on.
letters_from : ℕ → ℕ → List ℕ
letters_from zero c = []
letters_from (suc n) c = c ∷ letters_from n (c + 1)

-- "ABC…Zabc…z012…9+/".
unfoldable pub base64_chars : List ℕ
unfolding letters_from
base64_chars = letters_from 26 65 ++ (letters_from 26 97 ++ (letters_from 10 48 ++ (43 ∷ 47 ∷ [])))

nth_char : ℕ → List ℕ → ℕ
nth_char n [] = 0
nth_char zero (c ∷ cs) = c
nth_char (suc n) (c ∷ cs) = nth_char n cs

-- `base64_chars[n]`.
unfoldable pub to_char : ℕ → ℕ
unfolding base64_chars nth_char
to_char n = nth_char n base64_chars

position : ℕ → List ℕ → ℕ
position c [] = 0
position c (x ∷ xs) = let rest = position c xs in if x == c then 0 else suc rest

-- `base64_chars.find(c)` of a character that `is_base64` let pass. What the code finds for the zeros it fills a
-- last short group with reaches no byte of the result, so that a short group is decoded without them.
unfoldable pub from_char : ℕ → ℕ
unfolding base64_chars position
from_char c = position c base64_chars

between : ℕ → ℕ → ℕ → Bool
between a b c = leb a c && leb c b

-- `isalnum(c) || c == '+' || c == '/'`: whether the loop of `base64_decode` goes on.
unfoldable pub is_base64 : ℕ → Bool
unfolding between
is_base64 c = between 48 57 c || between 65 90 c || between 97 122 c || c == 43 || c == 47

-- The groups of three bytes, and the rest of one or two.
unfoldable pub encode_groups : List ℕ → List ℕ
unfolding to_char
encode_groups [] = []
encode_groups (a ∷ []) = to_char (a / 4) ∷ to_char (a % 4 * 16) ∷ 61 ∷ 61 ∷ []
encode_groups (a ∷ b ∷ []) =
    to_char (a / 4) ∷ to_char (a % 4 * 16 + b / 16) ∷ to_char (b % 16 * 4) ∷ 61 ∷ []
encode_groups (a ∷ b ∷ c ∷ s) =
    to_char (a / 4)
    ∷ to_char (a % 4 * 16 + b / 16)
    ∷ to_char (b % 16 * 4 + c / 64)
    ∷ to_char (c % 64)
    ∷ encode_groups s

-- `in_len` is an unsigned int.
unfoldable pub base64_encode : List ℕ → List ℕ
base64_encode s = encode_groups (take (length s % 2 ^ 32) s)

unfoldable pub base64_prefix : List ℕ → List ℕ
unfolding is_base64
base64_prefix [] = []
base64_prefix (c ∷ s) = let rest = base64_prefix s in if is_base64 c then c ∷ rest else []

unfoldable pub first_of : ℕ → ℕ → ℕ
first_of w x = (w * 4 + x / 16 % 4) % 256

unfoldable pub second_of : ℕ → ℕ → ℕ
second_of x y = (x % 16 * 16 + y / 4 % 16) % 256

unfoldable pub third_of : ℕ → ℕ → ℕ
third_of y z = (y % 4 * 64 + z) % 256

-- Four characters give three bytes, and the rest of two or three gives one or two.
unfoldable pub decode_groups : List ℕ → List ℕ
unfolding from_char first_of second_of third_of
decode_groups [] = []
decode_groups (p ∷ []) = []
decode_groups (p ∷ q ∷ []) = first_of (from_char p) (from_char q) ∷ []
decode_groups (p ∷ q ∷ r ∷ []) =
    first_of (from_char p) (from_char q) ∷ second_of (from_char q) (from_char r) ∷ []
decode_groups (p ∷ q ∷ r ∷ t ∷ s) =
    first_of (from_char p) (from_char q)
    ∷ second_of (from_char q) (from_char r)
    ∷ third_of (from_char r) (from_char t)
    ∷ decode_groups s

-- `in_len` is an int, which `in_len--` counts down once more than characters are taken: where it would
-- pass its least value the behaviour is not defined, and there is no answer. `in_` then stays in its type.
unfoldable pub base64_decode : List ℕ → Option (List ℕ)
unfolding decode_groups base64_prefix
base64_decode s =
    let in_len = length s % 2 ^ 32 in
    let p = base64_prefix (take in_len s) in
    if ltb in_len (2 ^ 31) || ltb (2 ^ 31 + length p) in_len then some (decode_groups p) else none
