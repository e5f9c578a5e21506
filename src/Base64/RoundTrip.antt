-- ===== src/Base64/RoundTrip.antt =====
-- What is encoded is decoded.
use rssdisk.Base.{
  length, take, take_all, ltb, ◌≤◌, ◌<◌, ◌^◌, ◌%◌, some, true, ap, ℕ, ◌+◌, ◌*◌, ◌/◌, ◌≡◌, refl,
  List, [], ◌∷◌, Bool, ◌==◌, ==_iff, ◌&&◌, All, arith,
}
use rssdisk.Bitbase.Bits.{for_all_below, for_all_below_sound}
use rssdisk.Bitbase.RoundTrip.{IsByte}
use rssdisk.Base64.{
  to_char, from_char, is_base64, base64_chars, letters_from, nth_char, position, between,
  encode_groups, base64_encode, base64_prefix, first_of, second_of, third_of, decode_groups,
  base64_decode,
}

abbrev is_read_back : ℕ → Bool
is_read_back n = is_base64 (to_char n) && from_char (to_char n) == n

alphabet_table : for_all_below 64 is_read_back ≡ true
unfolding for_all_below is_base64 to_char from_char base64_chars letters_from nth_char position
    between
alphabet_table = refl

module _ (n : ℕ) (h : n < 64) where
  read_back : is_read_back n ≡ true
  read_back = for_all_below_sound 64 is_read_back alphabet_table n h

  is_base64-to_char : is_base64 (to_char n) ≡ true
  is_base64-to_char = ground (arith, read_back)

  from_char-to_char : from_char (to_char n) ≡ n
  from_char-to_char = ground (arith, read_back, ==_iff (from_char (to_char n)) n)

first_eq : (a x : ℕ) → IsByte a → x < 16 → first_of (a / 4) (a % 4 * 16 + x) ≡ a
unfolding first_of
first_eq a x h k = omega arith

second_eq :
    (b x y : ℕ) → IsByte b → x < 4 → y < 4 → second_of (x * 16 + b / 16) (b % 16 * 4 + y) ≡ b
unfolding second_of
second_eq b x y h k l = omega arith

third_eq : (c x : ℕ) → IsByte c → x < 16 → third_of (x * 4 + c / 64) (c % 64) ≡ c
unfolding third_of
third_eq c x h k = omega arith

first_last : (a : ℕ) → IsByte a → first_of (a / 4) (a % 4 * 16) ≡ a
unfolding first_of
first_last a h = omega arith

second_last : (b x : ℕ) → IsByte b → x < 4 → second_of (x * 16 + b / 16) (b % 16 * 4) ≡ b
unfolding second_of
second_last b x h k = omega arith

pad : base64_prefix (61 ∷ []) ≡ []
unfolding base64_prefix is_base64 between
pad = refl

pads : base64_prefix (61 ∷ 61 ∷ []) ≡ []
unfolding base64_prefix is_base64 between
pads = refl

prefix-char :
    (n : ℕ) (s : List ℕ) → n < 64 → base64_prefix (to_char n ∷ s) ≡ to_char n ∷ base64_prefix s
unfolding base64_prefix
prefix-char n s h = rw (is_base64-to_char n h) refl

decode_groups-encode_groups :
    (s : List ℕ) → All IsByte s → decode_groups (base64_prefix (encode_groups s)) ≡ s
unfolding encode_groups decode_groups
decode_groups-encode_groups [] v = unfold base64_prefix in refl
decode_groups-encode_groups (a ∷ []) v =
    let w : a / 4 < 64 = omega (arith, v.0) in
    let x : a % 4 * 16 < 64 = omega arith in
    rw
      (
        prefix-char _ _ w,
        prefix-char _ _ x,
        pads,
        from_char-to_char _ w,
        from_char-to_char _ x,
        first_last a v.0,
      )
      refl
decode_groups-encode_groups (a ∷ b ∷ []) v =
    let w : a / 4 < 64 = omega (arith, v.0) in
    let x : a % 4 * 16 + b / 16 < 64 = omega (arith, v.1.0) in
    let y : b % 16 * 4 < 64 = omega arith in
    rw
      (
        prefix-char _ _ w,
        prefix-char _ _ x,
        prefix-char _ _ y,
        pad,
        from_char-to_char _ w,
        from_char-to_char _ x,
        from_char-to_char _ y,
        first_eq a (b / 16) v.0 (omega (arith, v.1.0)),
        second_last b (a % 4) v.1.0 (omega arith),
      )
      refl
decode_groups-encode_groups (a ∷ b ∷ c ∷ s) v =
    let rest = decode_groups-encode_groups s v.1.1.1 in
    let w : a / 4 < 64 = omega (arith, v.0) in
    let x : a % 4 * 16 + b / 16 < 64 = omega (arith, v.1.0) in
    let y : b % 16 * 4 + c / 64 < 64 = omega (arith, v.1.1.0) in
    let z : c % 64 < 64 = omega arith in
    rw
      (
        prefix-char _ _ w,
        prefix-char _ _ x,
        prefix-char _ _ y,
        prefix-char _ _ z,
        from_char-to_char _ w,
        from_char-to_char _ x,
        from_char-to_char _ y,
        from_char-to_char _ z,
        first_eq a (b / 16) v.0 (omega (arith, v.1.0)),
        second_eq b (a % 4) (c / 64) v.1.0 (omega arith) (omega (arith, v.1.1.0)),
        third_eq c (b % 16) v.1.1.0 (omega arith),
        rest,
      )
      refl

length-encode_groups : (s : List ℕ) → 3 * length (encode_groups s) ≤ 4 * (length s + 2)
unfolding encode_groups
length-encode_groups [] = omega arith
length-encode_groups (a ∷ []) = omega arith
length-encode_groups (a ∷ b ∷ []) = omega arith
length-encode_groups (a ∷ b ∷ c ∷ s) = omega (arith, length-encode_groups s)

-- A string whose length fits 32 bits is run through as a whole.
take_whole : (s : List ℕ) → length s < 2 ^ 32 → take (length s % 2 ^ 32) s ≡ s
take_whole s h = take_all s (length s % 2 ^ 32) (omega (arith, h))

-- Every string of bytes whose base64 text has less than 2 ^ 31 characters is decoded from that
-- text: a string of at most 3 * 2 ^ 29 - 3 bytes.
pub base64_decode-base64_encode :
    (s : List ℕ)
    → All IsByte s
    → length s + 3 ≤ 3 * 2 ^ 29
    → base64_decode (base64_encode s) ≡ some s
unfolding base64_decode base64_encode
base64_decode-base64_encode s v h =
    let t = encode_groups s in
    let size : length t < 2 ^ 31 = omega (arith, length-encode_groups s, h) in
    let inside : ltb (length t % 2 ^ 32) (2 ^ 31) ≡ true = ground (arith, size) in
    rw (take_whole s (omega (arith, h)), take_whole t (omega (arith, size)), inside)
      (ap (λ x. some x) (decode_groups-encode_groups s v))
