-- ===== src/JsonDb/Documents/Whole.antt =====
-- `fetch` without a query answers the documents that `createDatabaseContent` was given.
use rssdisk.Base.{
  ℕ, ◌+◌, ◌-◌, ◌%◌, ◌^◌, ◌≤◌, ◌<◌, ◌≡◌, ◌≢◌, refl, sym, ap, ◌∙◌, List, [], ◌∷◌, ◌++◌, true, false,
  some, arith, ltb, ◌==◌, if◌then◌else◌, length, length-append, length-drop, drop-append_eq,
  take_all, drop, drop-drop, append_assoc, bytes, All, nat_eq,
}
use rssdisk.Base.Words.{add_size}
use rssdisk.Bitbase.{numeric_to_chars, is_bit_setted}
use rssdisk.Bitbase.RoundTrip.{length-numeric_to_chars}
use rssdisk.Bitbase.Fields.{take_field, drop_field, read_number, next_number}
use rssdisk.JsonDb.Index.{FieldType, sub_size}
use rssdisk.JsonDb.Query.{Json}
use rssdisk.JsonDb.Mapped.{mapped, retrieve, retrieve_number}
use rssdisk.JsonDb.Header.{Built, headers, index_bytes, title_of, read_indices}
use rssdisk.JsonDb.Header.Fields.{retrieve-mapped}
use rssdisk.JsonDb.Header.Placed.{HasDistinctNames}
use rssdisk.JsonDb.Header.ReadBack.{read_indices-headers}
use rssdisk.JsonDb.Metadata.{Zlib, skip_ttl, jdb_mark}
use rssdisk.JsonDb.Documents.{
  Opened, all_documents, select, select_from, content_at, fetch_from_file,
}
use rssdisk.JsonDb.Documents.Body.{skip_ttl_lem}

-- Version 1, with or without the flag of compressed indices.
abbrev pub IsPlainFlags : ℕ → Type 0
IsPlainFlags v =
    (v < 2 ^ 32)
    × ((v % 256 == 1) ≡ true)
    × (is_bit_setted v 8 ≡ false)
    × (is_bit_setted v 9 ≡ false)

module _ (z : Zlib) (j : Json) (d head body : List ℕ) (v : ℕ) (fields : List (List ℕ × FieldType))
    (bs : List Built) (small : length d < 2 ^ 32) (plain : IsPlainFlags v)
    (distinct : HasDistinctNames bs) (at : d ≡ head ++ (title_of v fields bs ++ body)) where
  abbrev l : ℕ
  l = length head

  abbrev size_bytes : List ℕ
  size_bytes = numeric_to_chars 4 (length (headers fields bs))

  abbrev behind_size : List ℕ
  behind_size = headers fields bs ++ (index_bytes bs ++ body)

  at_title : drop l d ≡ title_of v fields bs ++ body
  at_title = rw at (drop-append_eq head (title_of v fields bs ++ body) l refl)

  enough_room : length head + length (title_of v fields bs) + length body ≡ length d
  enough_room = omega (
    arith,
    ap length at,
    length-append head (title_of v fields bs ++ body),
    length-append (title_of v fields bs) body,
  )

  room : length head + 11 + length (headers fields bs) ≤ length d
  unfolding title_of
  room =
      let hs = headers fields bs in
      let n = numeric_to_chars 4 (length hs % 2 ^ 32) in
      omega (
        arith,
        enough_room,
        length-append (numeric_to_chars 4 v) (n ++ (hs ++ index_bytes bs)),
        length-append n (hs ++ index_bytes bs),
        length-append hs (index_bytes bs),
        length-numeric_to_chars 4 v,
        length-numeric_to_chars 4 (length hs % 2 ^ 32),
      )

  at_mark : drop l d ≡ jdb_mark ++ (numeric_to_chars 4 v ++ (size_bytes ++ behind_size))
  unfolding title_of
  at_mark =
      let hs = headers fields bs in
      let e : length hs % 2 ^ 32 ≡ length hs = omega (arith, room) in
      at_title ∙ rw e (simp append_assoc)

  at_version : drop (add_size l 3) d ≡ numeric_to_chars 4 v ++ (size_bytes ++ behind_size)
  at_version =
      let e : add_size l 3 ≡ l + 3 = omega (arith, room) in
      rw e (
        drop_field l 3 d jdb_mark (numeric_to_chars 4 v ++ (size_bytes ++ behind_size)) at_mark
          refl)

  at_size : drop (add_size (add_size l 3) 4) d ≡ size_bytes ++ behind_size
  at_size =
      next_number 4 v (add_size l 3) (add_size (add_size l 3) 4) d (size_bytes ++ behind_size)
        at_version (omega (arith, room))

  mark_read : retrieve l 3 (mapped d) ≡ jdb_mark
  mark_read =
      rw (retrieve-mapped l 3 d) (
        take_field l 3 d jdb_mark (numeric_to_chars 4 v ++ (size_bytes ++ behind_size)) at_mark
          refl)

  version_read : retrieve_number 4 (add_size l 3) 4 (mapped d) ≡ v
  unfolding retrieve_number
  version_read = rw (retrieve-mapped (add_size l 3) 4 d) (
      read_number 4 4 v (add_size l 3) d (size_bytes ++ behind_size) at_version (omega arith)
        plain.0)

  -- Where the data begin.
  abbrev from : ℕ
  from = l + length (title_of v fields bs)

  indices_end : (read_indices (add_size (add_size l 3) 4) (mapped d)).0 ≡ from
  unfolding title_of
  indices_end =
      let hs = headers fields bs in
      let n = numeric_to_chars 4 (length hs % 2 ^ 32) in
      (read_indices-headers fields bs d body (add_size (add_size l 3) 4) small at_size distinct).0
      ∙ omega (
        arith,
        room,
        length-append (numeric_to_chars 4 v) (n ++ (hs ++ index_bytes bs)),
        length-append n (hs ++ index_bytes bs),
        length-append hs (index_bytes bs),
        length-numeric_to_chars 4 v,
        length-numeric_to_chars 4 (length hs % 2 ^ 32),
      )

  at_body : drop from d ≡ body
  at_body = drop_field l (length (title_of v fields bs)) d (title_of v fields bs) body at_title refl

  pub all_documents-mapped :
      (o : Opened)
      → o.data_ptr ≡ mapped d
      → o.l ≡ from
      → o.compressed_particularly_data ≡ false
      → all_documents z o ≡ drop 1 body
  unfolding all_documents
  all_documents-mapped o e f g =
      let next : add_size from 1 ≡ from + 1 = omega (arith, enough_room) in
      let whole : (if ltb 0 (sub_size (length d) from) then sub_size (length d) from - 1 else 0)
          ≡ length d - (from + 1) =
        ground (arith, enough_room) in
      rw (g, e, f, next, whole, retrieve-mapped (from + 1) (length d - (from + 1)) d)
        (take_all (drop (from + 1) d) (length d - (from + 1))
            (omega (arith, length-drop (from + 1) d))
          ∙ sym (drop-drop 1 from d)
          ∙ ap (drop 1) at_body)

  select_from-mapped :
      select_from z j (mapped d) (mapped d) v (add_size (add_size l 3) 4) []
      ≡ 91 ∷ drop 1 body ++ 93 ∷ []
  unfolding select_from select read_indices
  select_from-mapped =
      let one : (v % 256 == 2) ≡ false = ground (arith, plain.1) in
      rw (one, plain.2, plain.3)
        (ap (λ c. 91 ∷ c ++ 93 ∷ []) (all_documents-mapped _ refl indices_end refl))

  content_at-mapped :
      (files : List (List ℕ × List ℕ)) (file : List ℕ)
      → content_at z j files file (mapped d) (add_size l 3) [] ≡ some (91 ∷ drop 1 body ++ 93 ∷ [])
  unfolding content_at
  content_at-mapped files file = rw (version_read, plain.1, select_from-mapped) refl

  -- The head is 37 bytes and a time to live of less than 10, which a space ends.
  pub fetch_from_file-mapped :
      (files : List (List ℕ × List ℕ)) (file front ttl : List ℕ)
      → head ≡ front ++ (ttl ++ 32 ∷ [])
      → length front ≡ 37
      → length ttl < 10
      → All (λ c. c ≢ 32) ttl
      → fetch_from_file z j files file d [] 3 ≡ 91 ∷ drop 1 body ++ 93 ∷ []
  unfolding fetch_from_file is_bit_setted
  fetch_from_file-mapped files file front ttl e front_length ttl_length no_space =
      let title = title_of v fields bs in
      let at_ttl : drop 37 d ≡ ttl ++ 32 ∷ (title ++ body) =
        rw (at, e)
          (rw (append_assoc front (ttl ++ 32 ∷ []) (title ++ body)) (
            drop-append_eq front ((ttl ++ 32 ∷ []) ++ (title ++ body)) 37 (sym front_length)
            ∙ append_assoc ttl (32 ∷ []) (title ++ body))) in
      let sizes : length head ≡ 37 + length ttl + 1 = omega (
        arith,
        ap length e,
        length-append front (ttl ++ 32 ∷ []),
        length-append ttl (32 ∷ []),
        front_length,
      ) in
      let skipped : skip_ttl 10 d 37 ≡ l =
        skip_ttl_lem 10 37 d ttl (title ++ body) no_space ttl_length at_ttl ∙ sym sizes in
      let inside : ltb l (length d) ≡ true = ground (arith, room) in
      rw (skipped, inside, mark_read, content_at-mapped files file) refl
