-- ===== src/Bitbase.antt =====
-- libs/bitbase.h: big-endian packing of integers into byte strings, bits of an integer, and lists
-- of integers. An integer of w bytes is its bit pattern, a number below 2 ^ (8 * w).
pub mod RoundTrip
pub mod Bits
pub mod IntLists
pub mod Fields
pub mod Examples
use Prim.Native.Nat.{bit_and, bit_or}
use rssdisk.Base.{
  ℕ, zero, suc, ◌+◌, ◌-◌, ◌*◌, ◌/◌, ◌%◌, ◌^◌, List, [], ◌∷◌, ◌++◌, Bool, true, false, not, Option,
  none, some, ltb, leb, ◌==◌, if◌then◌else◌, length, take, drop,
}

-- The number of values of w bytes.
abbrev pub radix : ℕ → ℕ
radix w = 2 ^ (8 * w)

-- `for (s = (sz - 1) * 8; s >= 0; s -= 8) app += u_char((n >> s) & 0xff)`: the count is of the
-- rounds left, so the shift is 8 * k in the round that `suc k` begins.
unfoldable pub numeric_to_chars : ℕ → ℕ → List ℕ
numeric_to_chars zero n = []
numeric_to_chars (suc k) n = (n / radix k % 256) ∷ numeric_to_chars k n

-- `n += T(c) << (8 * j)` from the last byte to the first, T having w bytes: the rest of the string
-- is summed before its first byte, whose j is the length of the rest.
unfoldable pub chars_to_numeric : ℕ → List ℕ → ℕ
chars_to_numeric w [] = 0
chars_to_numeric w (c ∷ cs) = (chars_to_numeric w cs + c * radix (length cs)) % radix w

-- `num |= T(1) << bit`.
unfoldable pub set_bit : ℕ → ℕ → ℕ
set_bit num bit = bit_or num (2 ^ bit)

-- `num &= ~(T(1) << bit)` on w bytes.
unfoldable pub unset_bit : ℕ → ℕ → ℕ → ℕ
unset_bit w num bit = bit_and num (radix w - 1 - 2 ^ bit % radix w)

-- `(num & ((T)1 << bit)) != 0`.
unfoldable pub is_bit_setted : ℕ → ℕ → Bool
is_bit_setted num bit = not (bit_and num (2 ^ bit) == 0)

-- `for (i = sz * 8 - 1; i >= 0; --i) if (isBitSetted(n, i)) { ret = i + 1; break; }`.
unfoldable pub highest_bit : ℕ → ℕ → ℕ
highest_bit zero n = 0
highest_bit (suc i) n = let rest = highest_bit i n in if is_bit_setted n i then suc i else rest

unfoldable pub max_bits_used : ℕ → ℕ → ℕ
max_bits_used sz n = highest_bit (sz * 8) n

-- `for (it : _data) ret += numeric_to_chars(it)`, the elements having w bytes.
unfoldable pub comress_list : ℕ → List ℕ → List ℕ
comress_list w [] = []
comress_list w (x ∷ xs) = numeric_to_chars w x ++ comress_list w xs

-- `set.emplace(r)`. A set of numbers stands as the list of its values, each once and in ascending order,
-- whatever order its container has.
unfoldable pub emplace_value : ℕ → List ℕ → List ℕ
emplace_value r [] = r ∷ []
emplace_value r (x ∷ xs) =
    let rest = emplace_value r xs in
    if x == r then x ∷ xs else if ltb r x then r ∷ x ∷ xs else x ∷ rest

-- `for (i = 0u; i <= sz; i += size_bytes)`, where sz is `_data.size() - size_bytes` and `i` is an
-- unsigned int of 32 bits. Where the rounds are used up there is no result.
unfoldable pub uncomress_loop : ℕ → ℕ → List ℕ → ℕ → List ℕ → Option (List ℕ)
uncomress_loop zero w d i ret = none
uncomress_loop (suc fuel) w d i ret =
    let rest =
      uncomress_loop fuel w d ((i + w) % 2 ^ 32)
        (emplace_value (chars_to_numeric w (take w (drop i d))) ret) in
    if leb i (length d - w) then rest else some ret

-- More rounds than the bytes are not needed below 4 GB; from there on `i` wraps, and the loop need
-- not end.
unfoldable pub uncomress_list : ℕ → List ℕ → Option (List ℕ)
uncomress_list w d = if leb w (length d) then uncomress_loop (length d + 1) w d 0 [] else some []
