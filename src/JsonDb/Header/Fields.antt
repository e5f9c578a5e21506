-- ===== src/JsonDb/Header/Fields.antt =====
-- The headers of the indices are read back one by one.
use rssdisk.Base.{
  ℕ, zero, suc, ◌+◌, ◌-◌, ◌%◌, ◌^◌, ◌≤◌, ◌<◌, ◌≡◌, refl, sym, ◌∙◌, List, [], ◌∷◌, ◌++◌, true, false,
  Option, none, some, arith, ltb, ◌==◌, length, length-append, length-drop, take, drop, drop_all,
  take_all, length-take, append_assoc, append-nil, bytes, All,
}
use native.Mathlib.Decide.{dec_lt}
use rssdisk.Base.Dict.{find, assign, get_or}
use rssdisk.Base.Words.{add_size}
use rssdisk.Bitbase.{numeric_to_chars}
use rssdisk.Bitbase.RoundTrip.{length-numeric_to_chars}
use rssdisk.Bitbase.Fields.{take_field, drop_field, read_number, next_number, length_at}
use rssdisk.JsonDb.Index.{FieldType, none_type, numeric, date, text}
use rssdisk.JsonDb.Mapped.{mapped, retrieve, retrieve_number}
use rssdisk.JsonDb.Header.{
  Built, Headers, Sized, new_sized, byte_of, header_of, headers, read_header, read_headers,
}

pub retrieve-mapped :
    (offset size : ℕ) (d : List ℕ) → retrieve offset size (mapped d) ≡ take size (drop offset d)
unfolding retrieve
retrieve-mapped offset size d = elim (dec_lt offset (length d)) [
  | yes inside ↦
      let t : ltb offset (length d) ≡ true = ground arith in
      rw t (
        take_all (take size (drop offset d)) (length d - offset)
          (omega (arith, length-take size (drop offset d), length-drop offset d)))
  | no outside ↦
      let t : ltb offset (length d) ≡ false = ground arith in
      rw (t, drop_all d offset (omega arith)) (sym (take-nil size))
]
  where
    take-nil : (n : ℕ) → take {A = ℕ} n [] ≡ []
    take-nil zero = refl
    take-nil (suc n) = refl

pub byte_of-lt : (o : Option FieldType) → byte_of o < 256
byte_of-lt none = omega arith
byte_of-lt (some none_type) = omega arith
byte_of-lt (some numeric) = omega arith
byte_of-lt (some date) = omega arith
byte_of-lt (some text) = omega arith

-- The name and the index have sizes of 32 bits.
abbrev pub IsSmall : Built → Type 0
IsSmall b = (length b.0 < 2 ^ 32) × (length b.1 < 2 ^ 32)

abbrev pub names : List Built → List (List ℕ)
names [] = []
names (b ∷ bs) = b.0 ∷ names bs

module _ (fields : List (List ℕ × FieldType)) where
  pub length-header_of : (b : Built) → length (header_of fields b) ≡ 9 + length b.0
  unfolding header_of
  length-header_of b =
      let tp = numeric_to_chars 1 (byte_of (find b.0 fields)) in
      let size = numeric_to_chars 4 (length b.1 % 2 ^ 32) in
      omega (
        arith,
        length-append (numeric_to_chars 4 (length b.0 % 2 ^ 32)) (b.0 ++ (size ++ tp)),
        length-append b.0 (size ++ tp),
        length-append size tp,
        length-numeric_to_chars 4 (length b.0 % 2 ^ 32),
        length-numeric_to_chars 4 (length b.1 % 2 ^ 32),
        length-numeric_to_chars 1 (byte_of (find b.0 fields)),
      )

  -- The map after one header.
  abbrev pub with_size : Built → List (List ℕ × Sized) → List (List ℕ × Sized)
  with_size b sizes =
      assign b.0
        (record (get_or (find b.0 sizes) new_sized) {
          size = length b.1;
          tp = byte_of (find b.0 fields);
        })
        sizes

  module _ (d : List ℕ) (h : Headers) (b : Built) (rest : List ℕ) (small : length d < 2 ^ 60)
      (fits : IsSmall b) (at : drop h.l d ≡ header_of fields b ++ rest) where
    abbrev tail3 : List ℕ
    tail3 = numeric_to_chars 1 (byte_of (find b.0 fields)) ++ rest

    abbrev tail2 : List ℕ
    tail2 = numeric_to_chars 4 (length b.1) ++ tail3

    at_l : drop h.l d ≡ numeric_to_chars 4 (length b.0) ++ (b.0 ++ tail2)
    at_l =
        let n : length b.0 % 2 ^ 32 ≡ length b.0 = omega (arith, fits.0) in
        let m : length b.1 % 2 ^ 32 ≡ length b.1 = omega (arith, fits.1) in
        at ∙ unfold header_of in rw (n, m) (simp append_assoc)

    room : h.l + 9 + length b.0 ≤ length d
    room = omega (arith, length_at h.l d (header_of fields b) rest at, length-header_of b)

    at_name : drop (add_size h.l 4) d ≡ b.0 ++ tail2
    at_name =
        next_number 4 (length b.0) h.l (add_size h.l 4) d (b.0 ++ tail2) at_l (omega (arith, room))

    at_size : drop (add_size (add_size h.l 4) (length b.0)) d ≡ tail2
    at_size =
        let e : add_size (add_size h.l 4) (length b.0) ≡ add_size h.l 4 + length b.0 =
          omega (arith, room) in
        rw e (drop_field (add_size h.l 4) (length b.0) d b.0 tail2 at_name refl)

    at_type : drop (add_size (add_size (add_size h.l 4) (length b.0)) 4) d ≡ tail3
    at_type =
        next_number 4 (length b.1) (add_size (add_size h.l 4) (length b.0))
          (add_size (add_size (add_size h.l 4) (length b.0)) 4) d tail3 at_size
          (omega (arith, room))

    pub name_size : retrieve_number 4 h.l 4 (mapped d) ≡ length b.0
    unfolding retrieve_number
    name_size =
        rw (retrieve-mapped h.l 4 d)
          (read_number 4 4 (length b.0) h.l d (b.0 ++ tail2) at_l (omega arith) fits.0)

    name : retrieve (add_size h.l 4) (length b.0) (mapped d) ≡ b.0
    name =
        rw (retrieve-mapped (add_size h.l 4) (length b.0) d)
          (take_field (add_size h.l 4) (length b.0) d b.0 tail2 at_name refl)

    index_size :
        retrieve_number 4 (add_size (add_size h.l 4) (length b.0)) 4 (mapped d) ≡ length b.1
    unfolding retrieve_number
    index_size = rw (retrieve-mapped (add_size (add_size h.l 4) (length b.0)) 4 d) (
        read_number 4 4 (length b.1) (add_size (add_size h.l 4) (length b.0)) d tail3 at_size
          (omega arith) fits.1)

    index_type :
        retrieve_number 1 (add_size (add_size (add_size h.l 4) (length b.0)) 4) 1 (mapped d)
        ≡ byte_of (find b.0 fields)
    unfolding retrieve_number
    index_type = rw (retrieve-mapped (add_size (add_size (add_size h.l 4) (length b.0)) 4) 1 d) (
        read_number 1 1 (byte_of (find b.0 fields))
          (add_size (add_size (add_size h.l 4) (length b.0)) 4) d rest at_type (omega arith)
          (byte_of-lt (find b.0 fields)))

    pub read_header-header_of : read_header (mapped d) h ≡ record {
      l = h.l + (9 + length b.0);
      queue = h.queue ++ b.0 ∷ [];
      sizes = with_size b h.sizes;
    }
    unfolding read_header
    read_header-header_of =
        let e : add_size (add_size (add_size (add_size h.l 4) (length b.0)) 4) 1
            ≡ h.l + (9 + length b.0) =
          omega (arith, room) in
        rw (name_size, name, index_size, index_type, e)

    pub at_rest : drop (h.l + (9 + length b.0)) d ≡ rest
    at_rest =
        drop_field h.l (9 + length b.0) d (header_of fields b) rest at (sym (length-header_of b))

  -- The map after all headers.
  abbrev pub with_sizes : List Built → List (List ℕ × Sized) → List (List ℕ × Sized)
  with_sizes [] sizes = sizes
  with_sizes (b ∷ bs) sizes = with_sizes bs (with_size b sizes)

  pub read_headers-headers :
      (fuel : ℕ) (d : List ℕ) (h : Headers) (bs : List Built) (rest : List ℕ)
      → length (headers fields bs) < fuel
      → length d < 2 ^ 60
      → All IsSmall bs
      → drop h.l d ≡ headers fields bs ++ rest
      → read_headers fuel (length (headers fields bs)) (mapped d) h ≡ record {
        l = h.l + length (headers fields bs);
        queue = h.queue ++ names bs;
        sizes = with_sizes bs h.sizes;
      }
  unfolding read_headers headers
  read_headers-headers zero d h bs rest enough small fits at = absurd (omega arith)
  read_headers-headers (suc fuel) d h [] rest enough small fits at =
      let e : h.l + 0 ≡ h.l = omega arith in rw (e, append-nil h.queue)
  read_headers-headers (suc fuel) d h (b ∷ bs) rest enough small fits at =
      let total = length-append (header_of fields b) (headers fields bs) in
      let one = length-header_of b in
      let at' : drop h.l d ≡ header_of fields b ++ (headers fields bs ++ rest) =
        at ∙ append_assoc (header_of fields b) (headers fields bs) rest in
      let more : (length (header_of fields b ++ headers fields bs) == 0) ≡ false =
        ground (arith, total, one) in
      let left : length (header_of fields b ++ headers fields bs) - 9 - length b.0
          ≡ length (headers fields bs) =
        omega (arith, total, one) in
      let end : h.l + (9 + length b.0) + length (headers fields bs)
          ≡ h.l + length (header_of fields b ++ headers fields bs) =
        omega (arith, total, one) in
      let h' : Headers = record {
        l = h.l + (9 + length b.0);
        queue = h.queue ++ b.0 ∷ [];
        sizes = with_size b h.sizes;
      } in
      let q : (h.queue ++ b.0 ∷ []) ++ names bs ≡ h.queue ++ b.0 ∷ names bs =
        append_assoc h.queue (b.0 ∷ []) (names bs) in
      rw
        (
          more,
          name_size d h b (headers fields bs ++ rest) small fits.0 at',
          left,
          read_header-header_of d h b (headers fields bs ++ rest) small fits.0 at',
        )
        (read_headers-headers fuel d h' bs rest (omega (arith, total, one)) small fits.1
            (at_rest d h b (headers fields bs ++ rest) small fits.0 at')
          ∙ rw (end, q))
