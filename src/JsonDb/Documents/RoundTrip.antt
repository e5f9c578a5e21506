-- ===== src/JsonDb/Documents/RoundTrip.antt =====
-- `createDatabaseContent` and then `fetch`.
use rssdisk.Base.{
  ℕ, ◌^◌, ◌<◌, ◌≡◌, ◌≢◌, refl, ap, ◌∙◌, List, [], ◌∷◌, ◌++◌, Bool, true, false, some, arith, length,
  drop, bytes, map, keep_if, All,
}
use rssdisk.Base.Dict.{find}
use rssdisk.Bitbase.{is_bit_setted, set_bit}
use rssdisk.Server.Message.{DatabaseContent}
use rssdisk.Server.WType.{WType}
use rssdisk.JsonDb.Query.{Json}
use rssdisk.JsonDb.Header.{title_of}
use rssdisk.JsonDb.Metadata.{Zlib, no_metadata}
use rssdisk.JsonDb.Content.{Settings}
use rssdisk.JsonDb.Content.Items.{read_settings}
use rssdisk.JsonDb.Content.Create.{
  settled, flag, parse_json_data, build_items, content_of, create_parsed, create_database_content,
  is_ajdb, build_new,
}
use rssdisk.JsonDb.Documents.{joined, joined_more, fetch, fetch_from_file, searches_of}
use rssdisk.JsonDb.Documents.Body.{add_items-body, drop-joined_more}
use rssdisk.JsonDb.Documents.Distinct.{read_settings-IsDistinct, build_new-HasDistinctNames}
use rssdisk.JsonDb.Documents.Whole.{IsPlainFlags, fetch_from_file-mapped}

flag-IsPlainFlags : (compressed : Bool) → IsPlainFlags (flag compressed 10 1)
unfolding set_bit is_bit_setted
flag-IsPlainFlags true = (omega arith, refl, refl, refl)
flag-IsPlainFlags false = (omega arith, refl, refl, refl)

-- The settings are version 1, and compress neither the data nor blocks of them.
abbrev pub IsPlain : Settings → Type 0
IsPlain s = (s.version ≡ 1) × (s.compress_particularly_data ≡ 0) × (s.compress_data ≡ false)

-- A file of a JSON database: a front, a time to live with a space behind it, and the content.
abbrev pub stored : List ℕ → List ℕ → DatabaseContent → List ℕ
stored front ttl c = (front ++ (ttl ++ 32 ∷ [])) ++ (c.title ++ c.body)

-- The front has 37 bytes, the time to live at most 9.
abbrev pub IsFront : List ℕ → List ℕ → Type 0
IsFront front ttl = (length front ≡ 37) × (length ttl < 10) × All (λ c. c ≢ 32) ttl

module _ (j : Json) (z : Zlib) where
  open j use {Value, is_object, is_array, items, to_string}

  -- The texts of the objects.
  abbrev pub texts : Value → List (List ℕ)
  texts docs = map to_string (keep_if is_object (items docs))

  module _ (files : List (List ℕ × List ℕ)) (file : List ℕ) (docs t : Value) (w : WType)
      (not_ajdb : is_ajdb w ≡ false) (array : is_array docs ≡ true)
      (plain : IsPlain (read_settings j t)) where
    abbrev s : Settings
    s = read_settings j t

    settled-plain : settled w s ≡ s
    unfolding settled
    settled-plain = rw (not_ajdb, plain.1, plain.2) refl

    content : create_parsed j z files file docs t w ≡ content_of j z s no_metadata (items docs)
    unfolding create_parsed
    content = rw (not_ajdb, settled-plain, array) refl

    content-body : (create_parsed j z files file docs t w).body ≡ joined_more (texts docs)
    unfolding content_of build_items
    content-body =
        ap (λ (c : DatabaseContent). c.body) content
        ∙ rw (plain.1, plain.2)
            (add_items-body j z s.indexed_fields (keep_if is_object (items docs)) _)

    abbrev built : List (List ℕ × List ℕ)
    built =
        build_new z s.compress_index
          (build_items j z s no_metadata (keep_if is_object (items docs))).structs s.indexed_fields

    content-title :
        (create_parsed j z files file docs t w).title
        ≡ title_of (flag s.compress_index 10 1) s.indexed_fields built
    unfolding content_of
    content-title =
        ap (λ (c : DatabaseContent). c.title) content ∙ rw (plain.0, plain.1, plain.2) refl

    abbrev made : DatabaseContent
    made = create_parsed j z files file docs t w

    fetched :
        (now : List (List ℕ × List ℕ)) (front ttl : List ℕ)
        → length (stored front ttl made) < 2 ^ 32
        → IsFront front ttl
        → fetch_from_file z j now file (stored front ttl made) [] 3
          ≡ 91 ∷ joined (texts docs) ++ 93 ∷ []
    fetched now front ttl small h =
        fetch_from_file-mapped z j (stored front ttl made) (front ++ (ttl ++ 32 ∷ [])) made.body
          (flag s.compress_index 10 1) s.indexed_fields built small
          (flag-IsPlainFlags s.compress_index)
          (build_new-HasDistinctNames z s.compress_index _ s.indexed_fields
            (read_settings-IsDistinct j t))
          (ap (λ x. (front ++ (ttl ++ 32 ∷ [])) ++ (x ++ made.body)) content-title) now file front
          ttl refl h.0 h.1 h.2
        ∙ ap (λ x. 91 ∷ x ++ 93 ∷ []) (ap (drop 1) content-body ∙ drop-joined_more (texts docs))

  created :
      (files : List (List ℕ × List ℕ)) (file chars sett : List ℕ) (docs t : Value) (w : WType)
      → parse_json_data j z sett ≡ some t
      → parse_json_data j z chars ≡ some docs
      → create_database_content j z files file chars sett w ≡ create_parsed j z files file docs t w
  unfolding create_database_content
  created files file chars sett docs t w e f = rw (create_database_content, e, f) refl

  -- What createDatabaseContent makes of an array, not to append it, under settings of version
  -- 1 that compress neither the data nor blocks of them, is answered by fetch of a file that
  -- holds it behind its front of 37 bytes and its time to live: without a query, fetch
  -- answers the texts of the objects of the array, in order.
  pub fetch-create_database_content :
      (before now : List (List ℕ × List ℕ)) (file chars sett query front ttl : List ℕ)
      (docs t q : Value) (w : WType)
      → is_ajdb w ≡ false
      → parse_json_data j z sett ≡ some t
      → parse_json_data j z chars ≡ some docs
      → parse_json_data j z query ≡ some q
      → is_array docs ≡ true
      → IsPlain (read_settings j t)
      → searches_of z j q ≡ []
      → find file now
        ≡ some (stored front ttl (create_database_content j z before file chars sett w))
      → length (stored front ttl (create_database_content j z before file chars sett w)) < 2 ^ 32
      → IsFront front ttl
      → fetch z j now file query 3 ≡ 91 ∷ joined (texts docs) ++ 93 ∷ []
  unfolding fetch
  fetch-create_database_content before now file chars sett query front ttl docs t q w not_ajdb
        sett_parsed chars_parsed query_parsed array plain all there small h =
      let e = created before file chars sett docs t w sett_parsed chars_parsed in
      rw (fetch, there, query_parsed, all, e)
        (fetched before file docs t w not_ajdb array plain now front ttl
          (omega (arith, small, ap (λ c. length (stored front ttl c)) e)) h)
