-- ===== src/Streamer/RoundTrip.antt =====
-- Values that are put one behind the other are got back.
use mathlib.Core.Option
use rssdisk.Base.{
  Option, some, none, map, ℕ, zero, suc, ◌+◌, ◌-◌, ◌^◌, ◌≤◌, ◌<◌, ◌≡◌, refl, sym, ap, ◌∙◌, List, [],
  ◌∷◌, ◌++◌, true, leb, length, length-append, drop, All, arith, append_assoc, append-nil,
}
use rssdisk.Base.Words.{add_size}
use rssdisk.Bitbase.{radix, numeric_to_chars, comress_list, uncomress_list}
use rssdisk.Bitbase.RoundTrip.{length-numeric_to_chars}
use rssdisk.Bitbase.Fields.{take_field, drop_field, next_number, length_at}
use rssdisk.Bitbase.IntLists.{emplace_all, uncomress_list-emplace_all}
use rssdisk.Streamer.{
  Streamer, holding, append, get_string, strings_of, list_of, get_list, get_streamer,
  get_streamer_list, get_streamers,
}
use rssdisk.Streamer.Fields.{
  Field, number, chars, list, packed, packed_list, put, get_like, read_back, IsWhole, Fits,
  bytes_of, put-bytes_of, at_pos, get_number-bytes, get_text-bytes,
}

length-get_string : (t : Streamer) → length (get_string t) ≡ 8 + length t.bytes
unfolding get_string
length-get_string t = omega (
  arith,
  length-append (numeric_to_chars 8 (length t.bytes)) t.bytes,
  length-numeric_to_chars 8 (length t.bytes),
)

length-strings_of : (ts : List Streamer) → length ts ≤ length (strings_of ts)
unfolding strings_of
length-strings_of [] = omega arith
length-strings_of (t ∷ ts) =
    omega (
      arith,
      length-append (get_string t) (strings_of ts),
      length-get_string t,
      length-strings_of ts,
    )

module _ (d : List ℕ) (small : length d < 2 ^ 60) where
  get_streamer-string :
      (t : Streamer) (p : ℕ) (rest : List ℕ)
      → IsWhole t
      → p ≤ length d
      → drop p d ≡ get_string t ++ rest
      → get_streamer (at_pos d p) ≡ (t, at_pos d (p + length (get_string t)))
  unfolding get_streamer get_string
  get_streamer-string t p rest whole inside at =
      let at' : drop p d ≡ numeric_to_chars 8 (length t.bytes) ++ (t.bytes ++ rest) =
        at ∙ append_assoc (numeric_to_chars 8 (length t.bytes)) t.bytes rest in
      let size = length_at p d (get_string t) rest at in
      let fits : length t.bytes < radix 8 = omega (arith, size, inside, length-get_string t) in
      let e : p + 8 + length t.bytes ≡ p + length (get_string t) =
        omega (arith, length-get_string t) in
      rw (get_text-bytes d p rest small 8 t.bytes fits (omega arith) inside at', e, whole) refl

  get_streamer_list-strings :
      (ts : List Streamer) (p : ℕ) (rest : List ℕ)
      → All IsWhole ts
      → p ≤ length d
      → drop p d ≡ strings_of ts ++ rest
      → get_streamer_list (length ts) (at_pos d p) ≡ (ts, at_pos d (p + length (strings_of ts)))
  unfolding get_streamer_list strings_of
  get_streamer_list-strings [] p rest whole inside at = let e : p + 0 ≡ p = omega arith in rw e refl
  get_streamer_list-strings (t ∷ ts) p rest whole inside at =
      let at' : drop p d ≡ get_string t ++ (strings_of ts ++ rest) =
        at ∙ append_assoc (get_string t) (strings_of ts) rest in
      let size = length_at p d (get_string t) (strings_of ts ++ rest) at' in
      let e : p + length (get_string t) + length (strings_of ts)
          ≡ p + length (get_string t ++ strings_of ts) =
        omega (arith, length-append (get_string t) (strings_of ts)) in
      rw
        (
          get_streamer_list,
          get_streamer-string t p (strings_of ts ++ rest) whole.0 inside at',
          get_streamer_list-strings ts (p + length (get_string t)) rest whole.1
              (omega (arith, size, inside, length-get_string t))
              (drop_field p (length (get_string t)) d (get_string t) (strings_of ts ++ rest) at'
                refl),
          e,
        )
        refl

  list_of-append :
      (w n : ℕ) (xs ys : List ℕ) (p : ℕ) (rest : List ℕ)
      → n ≡ length ys
      → uncomress_list w ys ≡ some xs
      → uncomress_list w [] ≡ some []
      → p ≤ length d
      → drop p d ≡ ys ++ rest
      → list_of w n (at_pos d p) ≡ some (xs, at_pos d (p + n))
  list_of-append w zero xs [] p rest size read none_read inside at =
      let e : p + 0 ≡ p = omega arith in
      let nothing : some [] ≡ some xs = sym none_read ∙ read in
      rw e (ap (λ o. Option.map (λ ys. (ys, at_pos d p)) o) nothing)
  list_of-append w zero xs (y ∷ ys) p rest size read none_read inside at =
      absurd (omega (arith, size))
  list_of-append w (suc n) xs ys p rest size read none_read inside at =
      let room = length_at p d ys rest at in
      let there : leb (add_size p (suc n)) (length d) ≡ true = ground (arith, room, size, inside) in
      let e : add_size p (suc n) ≡ p + suc n = omega (arith, room, size, inside) in
      rw (there, e, take_field p (suc n) d ys rest at size, read) refl

  list_of-bytes :
      (w : ℕ) (xs : List ℕ) (p : ℕ) (rest : List ℕ)
      → Fits (list w xs)
      → p ≤ length d
      → drop p d ≡ comress_list w xs ++ rest
      → list_of w (length (comress_list w xs)) (at_pos d p)
        ≡ some (emplace_all xs [], at_pos d (p + length (comress_list w xs)))
  list_of-bytes w xs p rest (hw, hs, fit) inside at =
      list_of-append w (length (comress_list w xs)) (emplace_all xs []) (comress_list w xs) p rest
        refl (uncomress_list-emplace_all w xs hw hs fit)
        (unfold uncomress_list in ground (arith, hw)) inside at

  get_like-bytes_of :
      (f : Field) (p : ℕ) (rest : List ℕ)
      → Fits f
      → p ≤ length d
      → drop p d ≡ bytes_of f ++ rest
      → get_like f (at_pos d p) ≡ some (read_back f, at_pos d (p + length (bytes_of f)))
  unfolding get_like get_list get_streamers
  get_like-bytes_of (number w n) p rest fits inside at =
      rw (get_number-bytes d p rest small w n fits inside at, length-numeric_to_chars w n) refl
  get_like-bytes_of (chars b v) p rest fits inside at =
      let n = numeric_to_chars b (length v) in
      let e : p + b + length v ≡ p + length (n ++ v) =
        omega (arith, length-append n v, length-numeric_to_chars b (length v)) in
      rw (get_text-bytes d p rest small b v fits.0 fits.1 inside (at ∙ append_assoc n v rest), e)
        refl
  get_like-bytes_of (list w xs) p rest fits inside at =
      let xs' = comress_list w xs in
      let n = numeric_to_chars 8 (length xs') in
      let at' : drop p d ≡ n ++ (xs' ++ rest) = at ∙ append_assoc n xs' rest in
      let size = length_at p d n (xs' ++ rest) at' in
      let eight = length-numeric_to_chars 8 (length xs') in
      let more = length-append xs' rest in
      let e : p + 8 + length xs' ≡ p + length (n ++ xs') =
        omega (arith, length-append n xs', eight) in
      rw
        (
          get_number-bytes d p (xs' ++ rest) small 8 (length xs')
              (omega (arith, size, eight, more, inside)) inside at',
          list_of-bytes w xs (p + 8) rest fits (omega (arith, size, eight, inside))
              (next_number 8 (length xs') p (p + 8) d (xs' ++ rest) at' refl),
          e,
        )
        refl
  get_like-bytes_of (packed t) p rest fits inside at =
      rw (get_streamer-string t p rest fits inside at) refl
  get_like-bytes_of (packed_list ts) p rest fits inside at =
      let ss = strings_of ts in
      let n = numeric_to_chars 8 (length ts) in
      let at' : drop p d ≡ n ++ (ss ++ rest) = at ∙ append_assoc n ss rest in
      let size = length_at p d n (ss ++ rest) at' in
      let eight = length-numeric_to_chars 8 (length ts) in
      let more = length-append ss rest in
      let count : length ts ≤ length ss = length-strings_of ts in
      let e : p + 8 + length ss ≡ p + length (n ++ ss) = omega (arith, length-append n ss, eight) in
      rw
        (
          get_number-bytes d p (ss ++ rest) small 8 (length ts)
              (omega (arith, size, eight, more, inside, count)) inside at',
          get_streamer_list-strings ts (p + 8) rest fits (omega (arith, size, eight, inside))
              (next_number 8 (length ts) p (p + 8) d (ss ++ rest) at' refl),
          e,
        )
        refl

-- All the values, one behind the other.
abbrev pub put_all : List Field → Streamer → Streamer
put_all [] s = s
put_all (f ∷ fs) s = put_all fs (put f s)

abbrev pub then_get :
    Option (Field × Streamer)
    → (Streamer → Option (List Field × Streamer))
    → Option (List Field × Streamer)
then_get none more = none
then_get (some (g, t)) more = Option.map (λ rest. (g ∷ rest.0, rest.1)) (more t)

-- One read after the other, with the kinds of these values.
abbrev pub get_all_like : List Field → Streamer → Option (List Field × Streamer)
get_all_like [] s = some ([], s)
get_all_like (f ∷ fs) s = then_get (get_like f s) (get_all_like fs)

abbrev all_bytes : List Field → List ℕ
all_bytes [] = []
all_bytes (f ∷ fs) = bytes_of f ++ all_bytes fs

put_all-append :
    (fs : List Field) (s : Streamer) → All Fits fs → put_all fs s ≡ append (all_bytes fs) s
put_all-append [] s h = rw (append-nil s.bytes) refl
put_all-append (f ∷ fs) s h =
    ap (put_all fs) (put-bytes_of f s h.0)
    ∙ put_all-append fs (append (bytes_of f) s) h.1
    ∙ ap (λ x. record s { bytes = x }) (append_assoc s.bytes (bytes_of f) (all_bytes fs))

get_all_like-bytes :
    (d : List ℕ) (fs : List Field) (p : ℕ)
    → length d < 2 ^ 60
    → All Fits fs
    → p ≤ length d
    → drop p d ≡ all_bytes fs
    → get_all_like fs (at_pos d p) ≡ some (map read_back fs, at_pos d (p + length (all_bytes fs)))
get_all_like-bytes d [] p small h inside at = let e : p + 0 ≡ p = omega arith in rw e refl
get_all_like-bytes d (f ∷ fs) p small h inside at =
    let n = length (bytes_of f) in
    let size = length_at p d (bytes_of f) (all_bytes fs) at in
    let e : p + n + length (all_bytes fs) ≡ p + length (bytes_of f ++ all_bytes fs) =
      omega (arith, length-append (bytes_of f) (all_bytes fs)) in
    rw
      (
        get_like-bytes_of d small f p (all_bytes fs) h.0 inside at,
        get_all_like-bytes d fs (p + n) small h.1
            (room n (length d) p (length (all_bytes fs)) inside size)
            (drop_field p n d (bytes_of f) (all_bytes fs) at refl),
        e,
      )
      refl
  where
    room : (n l p m : ℕ) → p ≤ l → l - p ≡ n + m → p + n ≤ l
    room n l p m inside size = omega arith

-- Integers, strings, lists of integers, streamers and vectors of streamers, in any number and
-- order, that are put into an empty streamer and got from it in the same order, are what was
-- put, where of a list the set of its values is got; every read ends, and nothing is left to
-- read. The values fit, a list has less than 4 GB, and all are smaller than 2 ^ 60 bytes
-- together.
pub get_all_like-put_all :
    (fs : List Field)
    → All Fits fs
    → length (put_all fs (holding [])).bytes < 2 ^ 60
    → get_all_like fs (put_all fs (holding []))
      ≡ some (
        map read_back fs,
        record {
          bytes = (put_all fs (holding [])).bytes;
          read_pos = length (put_all fs (holding [])).bytes;
        },
      )
get_all_like-put_all fs h small =
    let e = put_all-append fs (holding []) h in
    let z : 0 + length (all_bytes fs) ≡ length (all_bytes fs) = omega arith in
    rw e (
      get_all_like-bytes (all_bytes fs) fs 0 (omega (arith, small, ap (λ s. length s.bytes) e)) h
        (omega arith) refl
      ∙ ap (λ n. some (map read_back fs, at_pos (all_bytes fs) n)) z)
