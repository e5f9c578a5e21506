-- ===== src/JsonDb/Mapped.antt =====
-- rssdisk/rssdisk/extentions/j_manager.hpp: `MemoryMappedItem`, the content of a file that is read.
use rssdisk.Base.{
  ℕ, ◌-◌, List, [], Bool, true, false, ◌&&◌, ltb, leb, if◌then◌else◌, length, take, drop,
}
use rssdisk.Base.Words.{add_size}
use rssdisk.Bitbase.{chars_to_numeric}
use rssdisk.JsonDb.Index.{sub_size}

pub record Mapped : Type 0 where
  pub current_file_size : ℕ
  pub content : List ℕ
  pub decompressed_data : List ℕ
  pub decompressed_offset : ℕ
  pub is_compressed : Bool

-- `read(file)`.
abbrev pub mapped : List ℕ → Mapped
mapped d = record {
  current_file_size = length d;
  content = d;
  decompressed_data = [];
  decompressed_offset = 0;
  is_compressed = false;
}

-- `retrieve(offset, size)`: what `append_string` appends. The file is in memory as a whole, so that
-- the loop over it ends where it ends.
unfoldable pub retrieve : ℕ → ℕ → Mapped → List ℕ
retrieve offset size m =
    let from = sub_size offset m.decompressed_offset in
    if m.is_compressed && leb m.decompressed_offset offset
    then (if leb (add_size from size) (length m.decompressed_data)
        then take size (drop from m.decompressed_data)
        else [])
    else if ltb offset m.current_file_size
    then take (m.current_file_size - offset) (take size (drop offset m.content))
    else []

-- `decompressed(offset, size)`.
unfoldable pub decompressed : (List ℕ → List ℕ) → ℕ → ℕ → Mapped → Mapped
decompressed decompress offset size m =
    let d = decompress (retrieve offset size m) in
    record m {
      decompressed_data = d;
      decompressed_offset = offset;
      current_file_size = add_size (sub_size m.current_file_size size) (length d);
      is_compressed = true;
    }

-- `retrieve_uint32_t_c` and `retrieve_uint8_t_c`, without the step of the offset.
unfoldable pub retrieve_number : ℕ → ℕ → ℕ → Mapped → ℕ
retrieve_number w offset size m = chars_to_numeric w (retrieve offset size m)
