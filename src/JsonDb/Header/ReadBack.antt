-- ===== src/JsonDb/Header/ReadBack.antt =====
-- What stands in a JSON database under the title that `createDatabaseContent` wrote is found again.
use rssdisk.Base.{
  ℕ, suc, ◌+◌, ◌%◌, ◌^◌, ◌≤◌, ◌<◌, ◌≡◌, refl, sym, ap, ◌∙◌, List, [], ◌∷◌, ◌++◌, arith, length,
  length-append, drop, append_assoc, bytes, All,
}
use rssdisk.Base.Words.{add_size}
use rssdisk.Bitbase.{numeric_to_chars}
use rssdisk.Bitbase.RoundTrip.{length-numeric_to_chars}
use rssdisk.Bitbase.Fields.{take_field, drop_field, read_number, next_number, length_at}
use rssdisk.JsonDb.Index.{FieldType}
use rssdisk.JsonDb.Mapped.{mapped, retrieve, retrieve_number}
use rssdisk.JsonDb.Header.{
  Built, Headers, Sized, header_of, headers, index_bytes, title_of, read_headers, place_indices,
  read_indices,
}
use rssdisk.JsonDb.Header.Fields.{
  IsSmall, names, with_sizes, read_headers-headers, retrieve-mapped, length-header_of,
}
use rssdisk.JsonDb.Header.Placed.{
  HasDistinctNames, IsPlaced, sized, HasSizes-with_sizes, place_indices-IsPlaced,
}

-- Each index is what the file has where the map says.
abbrev pub IsFound : List ℕ → List (List ℕ × Sized) → List Built → Type 0
IsFound d m = All λ b. retrieve (sized b.0 m).offset (sized b.0 m).size (mapped d) ≡ b.1

IsFound-IsPlaced :
    (d rest : List ℕ) (m : List (List ℕ × Sized)) (bs : List Built) (l : ℕ)
    → drop l d ≡ index_bytes bs ++ rest
    → IsPlaced l bs m
    → IsFound d m bs
unfolding index_bytes
IsFound-IsPlaced d rest m [] l at h = tt
IsFound-IsPlaced d rest m (b ∷ bs) l at h =
    let at' : drop l d ≡ b.1 ++ (index_bytes bs ++ rest) =
      at ∙ append_assoc b.1 (index_bytes bs) rest in
    (
      rw (h.0, h.1, retrieve-mapped l (length b.1) d)
          (take_field l (length b.1) d b.1 (index_bytes bs ++ rest) at' refl),
      IsFound-IsPlaced d rest m bs (l + length b.1)
          (drop_field l (length b.1) d b.1 (index_bytes bs ++ rest) at' refl) h.2,
    )

IsSmall-headers :
    (fields : List (List ℕ × FieldType)) (bs : List Built)
    → length (headers fields bs) + length (index_bytes bs) < 2 ^ 32
    → All IsSmall bs
unfolding headers index_bytes
IsSmall-headers fields [] h = tt
IsSmall-headers fields (b ∷ bs) h =
    let hs = length-append (header_of fields b) (headers fields bs) in
    let is = length-append b.1 (index_bytes bs) in
    let one = length-header_of fields b in
    (
      (omega (arith, hs, is, one), omega (arith, hs, is, one)),
      IsSmall-headers fields bs (omega (arith, hs, is, one)),
    )

module _ (fields : List (List ℕ × FieldType)) (bs : List Built) (d rest : List ℕ) (l : ℕ)
    (small : length d < 2 ^ 32)
    (at : drop l d
      ≡ numeric_to_chars 4 (length (headers fields bs))
        ++ (headers fields bs ++ (index_bytes bs ++ rest)))
    (distinct : HasDistinctNames bs) where
  abbrev behind : ℕ
  behind = l + 4 + length (headers fields bs)

  -- What the loop over the headers ends with.
  abbrev heads : Headers
  heads = record { l = behind; queue = names bs; sizes = with_sizes fields bs [] }

  sizes : l + 4 + length (headers fields bs) + length (index_bytes bs) + length rest ≤ length d
  sizes = omega (
    arith,
    length_at l d (numeric_to_chars 4 (length (headers fields bs)))
        (headers fields bs ++ (index_bytes bs ++ rest)) at,
    length-numeric_to_chars 4 (length (headers fields bs)),
    length-append (headers fields bs) (index_bytes bs ++ rest),
    length-append (index_bytes bs) rest,
  )

  at_headers : drop (l + 4) d ≡ headers fields bs ++ (index_bytes bs ++ rest)
  at_headers =
      next_number 4 (length (headers fields bs)) l (l + 4) d
        (headers fields bs ++ (index_bytes bs ++ rest)) at refl

  headers_read :
      read_headers
        (suc (length (headers fields bs)))
        (length (headers fields bs))
        (mapped d)
        (record { l = l + 4; queue = []; sizes = [] })
      ≡ heads
  headers_read =
      read_headers-headers fields (suc (length (headers fields bs))) d
        (record { l = l + 4; queue = []; sizes = [] }) bs (index_bytes bs ++ rest) (omega arith)
        (omega arith) (IsSmall-headers fields bs (omega (arith, sizes))) at_headers

  size_read : retrieve_number 4 l 4 (mapped d) ≡ length (headers fields bs)
  unfolding retrieve_number
  size_read = rw (retrieve-mapped l 4 d) (
      read_number 4 4 (length (headers fields bs)) l d
        (headers fields bs ++ (index_bytes bs ++ rest)) at (omega arith) (omega (arith, sizes)))

  indices_read :
      read_indices l (mapped d) ≡ place_indices (names bs) behind (with_sizes fields bs [])
  unfolding read_indices
  indices_read =
      let e : add_size l 4 ≡ l + 4 = omega (arith, sizes) in rw (size_read, e, headers_read) refl

  pub read_indices-headers :
      ((read_indices l (mapped d)).0 ≡ behind + length (index_bytes bs))
      × IsFound d (read_indices l (mapped d)).1 bs
  read_indices-headers =
      let (placed, end) =
        place_indices-IsPlaced bs behind (with_sizes fields bs []) distinct
          (HasSizes-with_sizes fields bs [] distinct) (omega (arith, sizes)) in
      rw indices_read (
        end,
        IsFound-IsPlaced d rest _ bs behind
            (drop_field (l + 4) (length (headers fields bs)) d (headers fields bs)
              (index_bytes bs ++ rest) at_headers refl)
            placed,
      )

module _ (version : ℕ) (fields : List (List ℕ × FieldType)) (bs : List Built) where
  length-title_of :
      length (title_of version fields bs)
      ≡ 7 + 4 + length (headers fields bs) + length (index_bytes bs)
  unfolding title_of
  length-title_of =
      let hs = headers fields bs in
      let n = numeric_to_chars 4 (length hs % 2 ^ 32) in
      omega (
        arith,
        length-append (numeric_to_chars 4 version) (n ++ (hs ++ index_bytes bs)),
        length-append n (hs ++ index_bytes bs),
        length-append hs (index_bytes bs),
        length-numeric_to_chars 4 version,
        length-numeric_to_chars 4 (length hs % 2 ^ 32),
      )

  drop-title_of :
      (body : List ℕ)
      → length (headers fields bs) < 2 ^ 32
      → drop 7 (title_of version fields bs ++ body)
        ≡ numeric_to_chars 4 (length (headers fields bs))
          ++ (headers fields bs ++ (index_bytes bs ++ body))
  unfolding title_of
  drop-title_of body small =
      let hs = headers fields bs in
      let n = numeric_to_chars 4 (length hs) in
      let e : length hs % 2 ^ 32 ≡ length hs = omega (arith, small) in
      rw e (
        drop_field 3 4
          ((106 ∷ 100 ∷ 98 ∷ [])
            ++ ((numeric_to_chars 4 version ++ (n ++ (hs ++ index_bytes bs))) ++ body))
          (numeric_to_chars 4 version) ((n ++ (hs ++ index_bytes bs)) ++ body)
          (append_assoc (numeric_to_chars 4 version) (n ++ (hs ++ index_bytes bs)) body)
          (sym (length-numeric_to_chars 4 version))
        ∙ append_assoc n (hs ++ index_bytes bs) body
        ∙ ap (λ r. n ++ r) (append_assoc hs (index_bytes bs) body))

-- Behind any version, the headers and indices that createDatabaseContent wrote, with names all
-- different, are read back by fetch: every index is found whole under its name, and the data
-- begin where the title ends.
pub read_indices-title_of :
    (version : ℕ) (fields : List (List ℕ × FieldType)) (bs : List Built) (body : List ℕ)
    → length (title_of version fields bs ++ body) < 2 ^ 32
    → HasDistinctNames bs
    → ((read_indices 7 (mapped (title_of version fields bs ++ body))).0
        ≡ length (title_of version fields bs))
      × IsFound
          (title_of version fields bs ++ body)
          (read_indices 7 (mapped (title_of version fields bs ++ body))).1
          bs
read_indices-title_of version fields bs body small distinct =
    let (end, found) =
      read_indices-headers fields bs (title_of version fields bs ++ body) body 7 small
        (drop-title_of version fields bs body (
          omega (
            arith,
            length-append (title_of version fields bs) body,
            length-title_of version fields bs,
          )))
        distinct in
    (end ∙ sym (length-title_of version fields bs), found)
