-- ===== src/Streamer/Fields.antt =====
-- Values of all kinds: how each is put, what bytes it has, and how one like it is got.
use mathlib.Core.Option
use rssdisk.Base.{
  Option, some, ℕ, ◌+◌, ◌-◌, ◌*◌, ◌^◌, ◌≤◌, ◌<◌, ◌≡◌, refl, List, [], ◌++◌, true, leb, length,
  length-append, take_all, drop, min, All, arith,
}
use rssdisk.Base.Words.{add_size}
use rssdisk.Bitbase.{radix, numeric_to_chars, comress_list}
use rssdisk.Bitbase.RoundTrip.{length-numeric_to_chars}
use rssdisk.Bitbase.Fields.{take_field, read_number, next_number, length_at}
use rssdisk.Bitbase.IntLists.{emplace_all}
use rssdisk.Streamer.{
  Streamer, append, get_string, strings_of, put_number, put_text, put_list, put_streamer,
  put_streamers, get_number, get_text, get_list, get_streamer, get_streamers,
}

pub data Field : Type 0 where
  number : ℕ → ℕ → Field
  chars : ℕ → List ℕ → Field
  list : ℕ → List ℕ → Field
  packed : Streamer → Field
  packed_list : List Streamer → Field

unfoldable pub put : Field → Streamer → Streamer
put (number w n) s = put_number w n s
put (chars b v) s = put_text b v s
put (list w xs) s = put_list w xs s
put (packed t) s = put_streamer t s
put (packed_list ts) s = put_streamers ts s

-- Reading a value of the kind that the first one has.
unfoldable pub get_like : Field → Streamer → Option (Field × Streamer)
get_like (number w n) s = let r = get_number w s in some (number w r.0, r.1)
get_like (chars b v) s = let r = get_text b s in some (chars b r.0, r.1)
get_like (list w xs) s = Option.map (λ r. (list w r.0, r.1)) (get_list w s)
get_like (packed t) s = let r = get_streamer s in some (packed r.0, r.1)
get_like (packed_list ts) s = let r = get_streamers s in some (packed_list r.0, r.1)

-- What is read back: of a list, the set of its values.
abbrev pub read_back : Field → Field
read_back (number w n) = number w n
read_back (chars b v) = chars b v
read_back (list w xs) = list w (emplace_all xs [])
read_back (packed t) = packed t
read_back (packed_list ts) = packed_list ts

-- A streamer that has not been read from.
abbrev pub IsWhole : Streamer → Type 0
IsWhole t = t.read_pos ≡ 0

-- The value can be put: its numbers fit, and a list has less than 4 GB.
abbrev pub Fits : Field → Type 0
Fits (number w n) = n < radix w
Fits (chars b v) = (length v < radix b) × (b ≤ 8)
Fits (list w xs) = (0 < w) × ((length xs + 1) * w < 2 ^ 32) × All (λ x. x < radix w) xs
Fits (packed t) = IsWhole t
Fits (packed_list ts) = All IsWhole ts

abbrev pub bytes_of : Field → List ℕ
bytes_of (number w n) = numeric_to_chars w n
bytes_of (chars b v) = numeric_to_chars b (length v) ++ v
bytes_of (list w xs) = numeric_to_chars 8 (length (comress_list w xs)) ++ comress_list w xs
bytes_of (packed t) = get_string t
bytes_of (packed_list ts) = numeric_to_chars 8 (length ts) ++ strings_of ts

pub put-bytes_of : (f : Field) (s : Streamer) → Fits f → put f s ≡ append (bytes_of f) s
unfolding put put_number put_text put_list put_streamer put_streamers
put-bytes_of (number w n) s h = refl
put-bytes_of (chars b v) s h =
    let e : min (length v) (radix b - 1) ≡ length v = omega (arith, h.0) in
    rw (e, take_all v (radix b - 1) (omega (arith, h.0))) refl
put-bytes_of (list w xs) s h = refl
put-bytes_of (packed t) s h = refl
put-bytes_of (packed_list ts) s h = refl

-- Where the streamer stands.
abbrev pub at_pos : List ℕ → ℕ → Streamer
at_pos d p = record { bytes = d; read_pos = p }

module _ (d : List ℕ) (p : ℕ) (rest : List ℕ) (small : length d < 2 ^ 60) where
  pub get_number-bytes :
      (w n : ℕ)
      → n < radix w
      → p ≤ length d
      → drop p d ≡ numeric_to_chars w n ++ rest
      → get_number w (at_pos d p) ≡ (n, at_pos d (p + w))
  unfolding get_number
  get_number-bytes w n fits inside at =
      let size = length_at p d (numeric_to_chars w n) rest at in
      let eight = length-numeric_to_chars w n in
      let there : leb (add_size p w) (length d) ≡ true = ground (arith, size, eight, inside) in
      let e : add_size p w ≡ p + w = omega (arith, size, eight, inside) in
      rw (there, e, read_number w w n p d rest at (omega arith) fits) refl

  pub get_text-bytes :
      (b : ℕ) (v : List ℕ)
      → length v < radix b
      → b ≤ 8
      → p ≤ length d
      → drop p d ≡ numeric_to_chars b (length v) ++ (v ++ rest)
      → get_text b (at_pos d p) ≡ (v, at_pos d (p + b + length v))
  unfolding get_text
  get_text-bytes b v fits bytes inside at =
      let size = length_at p d (numeric_to_chars b (length v)) (v ++ rest) at in
      let more = length-append v rest in
      let eight = length-numeric_to_chars b (length v) in
      let there : leb (add_size p b) (length d) ≡ true =
        ground (arith, size, eight, more, inside) in
      let e : add_size p b ≡ p + b = omega (arith, size, eight, more, inside) in
      let there' : leb (add_size (p + b) (length v)) (length d) ≡ true =
        ground (arith, size, eight, more, inside) in
      let e' : add_size (p + b) (length v) ≡ p + b + length v =
        omega (arith, size, eight, more, inside) in
      let n = read_number 8 b (length v) p d (v ++ rest) at bytes fits in
      let at' = next_number b (length v) p (p + b) d (v ++ rest) at refl in
      rw (n, there, e, there', e', take_field (p + b) (length v) d v rest at' refl) refl
