-- ===== src/JsonDb/Documents.antt =====
-- rssdisk/rssdisk/extentions/j_manager.cpp: `fetch`, which answers a query on a JSON database. The
-- maps keep the order in which their keys came.
pub mod Body
pub mod Distinct
pub mod Whole
pub mod RoundTrip
pub mod Examples
use rssdisk.Base.{
  is_nil, ℕ, zero, suc, ◌+◌, ◌-◌, ◌*◌, ◌%◌, ◌^◌, List, [], ◌∷◌, ◌++◌, Bool, true, false, not, ◌&&◌,
  ◌||◌, Option, none, some, ltb, leb, ◌==◌, if◌then◌else◌, length, take, drop, bytes, bytes_eq, map,
  keep_if,
}
use rssdisk.Base.Dict.{find, assign, erase, get_or}
use rssdisk.Base.Words.{add_size}
use rssdisk.Bitbase.{is_bit_setted}
use rssdisk.JsonDb.Index.{
  FieldType, none_type, numeric, date, text, Index, sub_size, fetch_all_indexed_data,
}
use rssdisk.JsonDb.Query.{Json, Query, f_search, matching}
use rssdisk.JsonDb.Fetch.{Readed, fetch_indexed_data}
use rssdisk.JsonDb.Mapped.{Mapped, mapped, retrieve, retrieve_number, decompressed}
use rssdisk.JsonDb.Header.{Headers, Sized, new_sized, read_headers, place_indices}
use rssdisk.JsonDb.Metadata.{Zlib, first_char, skip_ttl, opened, jdb_mark, data_suffix}
use rssdisk.JsonDb.Content.{internal_idx}
use rssdisk.JsonDb.Content.Create.{parse_json_data}

abbrev pub Searches : Type 0
Searches = List (List ℕ × Query)

-- A database that is open: the file with the headers, the file with the data, where these begin, the
-- indices, and the flags of the version.
pub record Opened : Type 0 where
  pub m : Mapped
  pub data_ptr : Mapped
  pub l : ℕ
  pub indexex_sizes : List (List ℕ × Sized)
  pub compressed_particularly_data : Bool
  pub compress_index : Bool

-- What the search through the indices has.
pub record Found : Type 0 where
  pub searches : Searches
  pub offset_size : List (ℕ × ℕ)
  pub first_index : Bool
  pub indexex_passes : List (List ℕ)

-- Commas stand between.
abbrev pub joined_more : List (List ℕ) → List ℕ
joined_more [] = []
joined_more (c ∷ cs) = 44 ∷ c ++ joined_more cs

abbrev pub joined : List (List ℕ) → List ℕ
joined [] = []
joined (c ∷ cs) = c ++ joined_more cs

abbrev pub contains : List ℕ → List (List ℕ) → Bool
contains name [] = false
contains name (n ∷ ns) = bytes_eq n name || contains name ns

abbrev pub is_some {ℓ} : {A : Type ℓ} → Option A → Bool
is_some none = false
is_some (some a) = true

abbrev pub is_text : FieldType → Bool
is_text text = true
is_text date = false
is_text numeric = false
is_text none_type = false

-- `f_in_search->second.is_indexed = true`, for the names of the headers.
unfoldable pub mark_indexed : List (List ℕ) → Searches → Searches
mark_indexed queue [] = []
mark_indexed queue ((name, q) ∷ qs) =
    (name, record q { is_indexed = q.is_indexed || contains name queue }) ∷ mark_indexed queue qs

-- Whether a query is for a field of the headers: `is_indexed_search`.
unfoldable pub is_indexed_search : List (List ℕ) → Searches → Bool
is_indexed_search [] searches = false
is_indexed_search (name ∷ names) searches =
    is_some (find name searches) || is_indexed_search names searches

-- The first query with an index that has not been passed.
unfoldable pub next_search : List (List ℕ) → Searches → Option (List ℕ × Query)
next_search passes [] = none
next_search passes ((name, q) ∷ qs) =
    if q.is_indexed && not (contains name passes) then some (name, q) else next_search passes qs

module _ (z : Zlib) where
  -- The bytes of the index of a name.
  abbrev pub index_bytes_of : Opened → List ℕ → List ℕ
  index_bytes_of o name =
      let i_d = get_or (find name o.indexex_sizes) new_sized in
      opened z o.compress_index (retrieve i_d.offset i_d.size o.m)

  -- What `f_first` does with the query that it has found.
  unfoldable pub search_index : Opened → List ℕ → Query → Found → Found
  search_index o name srch f =
      let readed : Readed = if f.first_index then none else some f.offset_size in
      let erased = not o.compressed_particularly_data && not (is_text srch.tp) in
      record {
        searches = if erased then erase name f.searches else f.searches;
        offset_size = fetch_indexed_data srch (index_bytes_of o name) readed;
        first_index = false;
        indexex_passes = f.indexex_passes ++ name ∷ [];
      }

  -- `while (f_first())`: a round passes a name that was not passed, so that there are as many as
  -- queries at most.
  unfoldable pub search_indices : ℕ → Opened → Found → Found
  search_indices zero o f = f
  search_indices (suc fuel) o f = elim (next_search f.indexex_passes f.searches) [
    | none ↦ f
    | some (name, srch) ↦
        let rest = search_indices fuel o (search_index o name srch f) in
        if is_nil name then f else rest
  ]

  -- A document, or a block of them, by its offset and size.
  abbrev pub document_at : Opened → ℕ × ℕ → List ℕ
  document_at o (offset, size) =
      if o.compressed_particularly_data
      then z.decompress_string (retrieve (add_size o.l offset) size o.data_ptr)
      else retrieve (add_size (add_size o.l offset) 1) size o.data_ptr

  abbrev pub place_of : Index → ℕ × ℕ
  place_of i = (i.dd.offset, i.dd.size)

  -- All documents: the data without their first byte, or the blocks of the internal index.
  unfoldable pub all_documents : Opened → List ℕ
  all_documents o =
      let sz = sub_size o.data_ptr.current_file_size o.l in
      if o.compressed_particularly_data
      then joined (
          map (λ i. document_at o (place_of i))
            (fetch_all_indexed_data (index_bytes_of o internal_idx)))
      else retrieve (add_size o.l 1) (if ltb 0 sz then sz - 1 else 0) o.data_ptr

  module _ (j : Json) where
    open j use {Value, is_object, is_array, items, member_names, to_string}

    -- `if (parseJsonData(content, all_json))`, and then its items.
    abbrev items_of : Option Value → List Value
    items_of none = []
    items_of (some v) = items v

    abbrev pub array_of : List ℕ → List Value
    array_of content = items_of (parse_json_data j z (91 ∷ content ++ 93 ∷ []))

    -- The items that all queries match, one behind the other.
    unfoldable pub matched : Searches → List Value → List ℕ
    matched searches vs = joined (map to_string (keep_if (λ v. matching j v searches) vs))

    -- What stands between the brackets.
    unfoldable pub select : List (List ℕ) → Opened → Searches → List ℕ
    select queue o [] = all_documents o
    select queue o (q ∷ qs) =
        let marked = mark_indexed queue (q ∷ qs) in
        let f = search_indices (suc (length marked)) o (record {
          searches = marked;
          offset_size = [];
          first_index = true;
          indexex_passes = [];
        }) in
        let content = joined (map (document_at o) f.offset_size) in
        if is_indexed_search queue (q ∷ qs)
        then (if is_nil f.searches then content else matched f.searches (array_of content))
        else matched marked (array_of (all_documents o))

    -- The queries of the search.
    unfoldable pub search_items : List Value → Searches → Searches
    search_items [] searches = searches
    search_items (it ∷ vs) searches =
        search_items vs (if is_object it then f_search j it searches else searches)

    unfoldable pub searches_of : Value → Searches
    searches_of s =
        if is_array s
        then search_items (items s) []
        else if is_object s && not (is_nil (member_names s))
        then f_search j s []
        else []

    -- The headers are read, the data are opened, and the content is selected.
    unfoldable pub select_from : Mapped → Mapped → ℕ → ℕ → Searches → List ℕ
    select_from m m_data v_jdb l searches =
        let size = retrieve_number 4 l 4 m in
        let h =
          read_headers (suc size) size m (record { l = add_size l 4; queue = []; sizes = [] }) in
        let placed = place_indices h.queue h.l h.sizes in
        let apart = v_jdb % 256 == 2 in
        let from = if apart then 0 else placed.0 in
        let source = if apart then m_data else m in
        let whole = sub_size source.current_file_size from in
        let data_ptr =
          if is_bit_setted v_jdb 8
          then decompressed z.decompress_string from whole source
          else source in
        let o : Opened = record {
          m = if apart then m else data_ptr;
          data_ptr = data_ptr;
          l = from;
          indexex_sizes = placed.1;
          compressed_particularly_data = is_bit_setted v_jdb 9;
          compress_index = is_bit_setted v_jdb 10;
        } in
        91 ∷ select h.queue o searches ++ 93 ∷ []

    -- Behind "jdb", at l: `none` where the file with the data is missing.
    unfoldable pub content_at :
        List (List ℕ × List ℕ) → List ℕ → Mapped → ℕ → Searches → Option (List ℕ)
    content_at files file m l searches =
        let v_jdb = retrieve_number 4 l 4 m in
        if v_jdb % 256 == 1
        then some (select_from m m v_jdb (add_size l 4) searches)
        else if v_jdb % 256 == 2
        then elim (find (file ++ data_suffix) files) [
          | none ↦ none
          | some d ↦ some (select_from m (mapped d) v_jdb (add_size l 4) searches)
        ]
        else some []

    -- `no_compress` and `no_header` are the bits 0 and 1 of the options.
    abbrev pub finished : ℕ → List ℕ → Option (List ℕ) → List ℕ
    finished ro head none = []
    finished ro head (some []) = head
    finished ro head (some (c ∷ cs)) =
        head ++ (if is_bit_setted ro 0 then c ∷ cs else z.compress_string (c ∷ cs))

    unfoldable pub fetch_from_file :
        List (List ℕ × List ℕ) → List ℕ → List ℕ → Searches → ℕ → List ℕ
    fetch_from_file files file d searches ro =
        let m = mapped d in
        let l = skip_ttl 10 d 37 in
        let head = if is_bit_setted ro 1 then [] else retrieve 0 l m in
        if not (ltb l m.current_file_size)
        then []
        else if bytes_eq (retrieve l 3 m) jdb_mark
        then finished ro head (content_at files file m (add_size l 3) searches)
        else head

    unfoldable pub fetch : List (List ℕ × List ℕ) → List ℕ → List ℕ → ℕ → List ℕ
    fetch files file json_search ro = elim (find file files) [
      | none ↦ []
      | some d ↦ elim (parse_json_data j z json_search) [
        | none ↦ []
        | some s ↦ fetch_from_file files file d (searches_of s) ro
      ]
    ]
