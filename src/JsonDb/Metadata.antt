-- ===== src/JsonDb/Metadata.antt =====
-- rssdisk/rssdisk/extentions/j_manager.cpp: `retrieveCompressedData`, what a database that is
-- appended to has already. zlib is a parameter. The files are a map from paths to contents.
use rssdisk.Base.{
  ℕ, zero, suc, ◌+◌, ◌%◌, ◌^◌, List, [], ◌∷◌, ◌++◌, Bool, true, false, ◌&&◌, none, some, ltb, ◌==◌,
  if◌then◌else◌, length, drop, bytes, bytes_eq,
}
use rssdisk.Base.Dict.{find, assign, get_or}
use rssdisk.Base.Words.{add_size}
use rssdisk.Bitbase.{is_bit_setted}
use rssdisk.JsonDb.Mapped.{Mapped, mapped, retrieve, retrieve_number}
use rssdisk.JsonDb.Header.{Sized, new_sized, read_headers}

-- `commpression_zlib`: `compress_string(s, 1)` and `decompress_string(s)`.
pub record Zlib : Type 0 where
  pub compress_string : List ℕ → List ℕ
  pub decompress_string : List ℕ → List ℕ

pub record Metadata : Type 0 where
  pub size : ℕ
  pub indices : List (List ℕ × List ℕ)

abbrev pub no_metadata : Metadata
no_metadata = record { size = 0; indices = [] }

-- "jdb".
abbrev pub jdb_mark : List ℕ
jdb_mark = 106 ∷ 100 ∷ 98 ∷ []

-- ".jdb_data".
abbrev pub data_suffix : List ℕ
data_suffix = 46 ∷ 106 ∷ 100 ∷ 98 ∷ 95 ∷ 100 ∷ 97 ∷ 116 ∷ 97 ∷ []

abbrev pub first_char : List ℕ → ℕ
first_char [] = 0
first_char (c ∷ cs) = c

-- The loop over the time to live, whose text a space ends: n < 10. Past the end of the file it reads
-- what is not there, zeros here.
unfoldable pub skip_ttl : ℕ → List ℕ → ℕ → ℕ
skip_ttl zero d l = l
skip_ttl (suc rounds) d l =
    let rest = skip_ttl rounds d (l + 1) in if first_char (drop l d) == 32 then l + 1 else rest

module _ (z : Zlib) where
  -- `decompress_string` where the indices are compressed.
  abbrev pub opened : Bool → List ℕ → List ℕ
  opened true b = z.decompress_string b
  opened false b = b

  -- `for (t : queue)`.
  unfoldable pub collect_indices :
      Bool
      → Mapped
      → List (List ℕ)
      → ℕ
      → List (List ℕ × Sized)
      → List (List ℕ × List ℕ)
      → List (List ℕ × List ℕ)
  collect_indices compressed m [] l sizes ret = ret
  collect_indices compressed m (t ∷ ts) l sizes ret =
      let old = get_or (find t sizes) new_sized in
      let index = retrieve (l % 2 ^ 32) old.size m in
      collect_indices compressed m ts (add_size l old.size)
        (assign t (record old { offset = l % 2 ^ 32 }) sizes)
        (assign t (opened compressed index) ret)

  -- What stands behind "jdb", at l.
  unfoldable pub metadata_at : List (List ℕ × List ℕ) → List ℕ → Mapped → ℕ → Metadata
  metadata_at files file m l =
      let v_jdb = retrieve_number 4 l 4 m in
      let at_headers = add_size l 4 in
      let header_size = retrieve_number 4 at_headers 4 m in
      let h =
        read_headers (suc header_size) header_size m
          (record { l = add_size at_headers 4; queue = []; sizes = [] }) in
      let indices = collect_indices (is_bit_setted v_jdb 10) m h.queue h.l h.sizes [] in
      if (v_jdb % 256 == 2) && is_bit_setted v_jdb 9
      then elim (find (file ++ data_suffix) files) [
        | none ↦ record { size = 0; indices = indices }
        | some d ↦ record { size = length d; indices = indices }
      ]
      else no_metadata

  unfoldable pub retrieve_compressed_data : List (List ℕ × List ℕ) → List ℕ → Metadata
  retrieve_compressed_data files file = elim (find file files) [
    | none ↦ no_metadata
    | some d ↦
        let m = mapped d in
        let l = skip_ttl 10 d 37 in
        if ltb l m.current_file_size && bytes_eq (retrieve l 3 m) jdb_mark
        then metadata_at files file m (add_size l 3)
        else no_metadata
  ]
