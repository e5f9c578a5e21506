-- ===== src/JsonDb/Header.antt =====
-- rssdisk/rssdisk/extentions/j_manager.cpp: the header of a JSON database, as `createDatabaseContent`
-- writes it and as `fetch` and `retrieveCompressedData` read it.
pub mod Fields
pub mod Placed
pub mod ReadBack
pub mod Examples
use rssdisk.Base.{
  ℕ, zero, suc, ◌+◌, ◌-◌, ◌*◌, ◌/◌, ◌%◌, ◌^◌, List, [], ◌∷◌, ◌++◌, Bool, true, false, ◌&&◌, not,
  Option, none, some, ltb, leb, ◌==◌, if◌then◌else◌, length, take, drop, bytes, bytes_eq,
}
use rssdisk.Base.Dict.{find, assign, get_or}
use rssdisk.Base.Words.{add_size}
use rssdisk.Bitbase.{numeric_to_chars}
use rssdisk.JsonDb.Index.{FieldType, none_type, numeric, date, text}
use rssdisk.JsonDb.Mapped.{Mapped, retrieve, retrieve_number}

-- The byte of a field's type, and the type of a byte.
abbrev pub type_byte : FieldType → ℕ
type_byte none_type = 0
type_byte numeric = 1
type_byte date = 2
type_byte text = 3

-- An index as it is built: its name, and its bytes.
abbrev pub Built : Type 0
Built = List ℕ × List ℕ

-- `indexed_fields.find(name)`.
abbrev pub byte_of : Option FieldType → ℕ
byte_of none = 0
byte_of (some t) = type_byte t

unfoldable pub header_of : List (List ℕ × FieldType) → Built → List ℕ
header_of fields b =
    numeric_to_chars 4 (length b.0 % 2 ^ 32)
    ++ (b.0
        ++ (numeric_to_chars 4 (length b.1 % 2 ^ 32)
            ++ numeric_to_chars 1 (byte_of (find b.0 fields))))

unfoldable pub headers : List (List ℕ × FieldType) → List Built → List ℕ
headers fields [] = []
headers fields (b ∷ bs) = header_of fields b ++ headers fields bs

unfoldable pub index_bytes : List Built → List ℕ
index_bytes [] = []
index_bytes (b ∷ bs) = b.1 ++ index_bytes bs

-- `data.title`: "jdb", the version and its flags, the size of the headers, the headers, the indices.
unfoldable pub title_of : ℕ → List (List ℕ × FieldType) → List Built → List ℕ
title_of version fields bs =
    (106 ∷ 100 ∷ 98 ∷ [])
    ++ (numeric_to_chars 4 version
        ++ (numeric_to_chars 4 (length (headers fields bs) % 2 ^ 32)
            ++ (headers fields bs ++ index_bytes bs)))

-- `indexex_sizes[name]`: where an index stands, its size, and the byte of its type.
pub record Sized : Type 0 where
  pub offset : ℕ
  pub size : ℕ
  pub tp : ℕ

abbrev pub new_sized : Sized
new_sized = record { offset = 0; size = 0; tp = 1 }

-- What the loop over the headers has: the offset, the names in their order, the map.
pub record Headers : Type 0 where
  pub l : ℕ
  pub queue : List (List ℕ)
  pub sizes : List (List ℕ × Sized)

-- One round: a name, the size of its index, and its type.
unfoldable pub read_header : Mapped → Headers → Headers
read_header m h =
    let n = retrieve_number 4 h.l 4 m in
    let at_name = add_size h.l 4 in
    let name = retrieve at_name n m in
    let at_size = add_size at_name n in
    let size = retrieve_number 4 at_size 4 m in
    let at_type = add_size at_size 4 in
    let old = get_or (find name h.sizes) new_sized in
    record {
      l = add_size at_type 1;
      queue = h.queue ++ name ∷ [];
      sizes = assign name (record old { size = size; tp = retrieve_number 1 at_type 1 m }) h.sizes;
    }

-- `while (header_size > 0)`, an int64_t that each round makes smaller by 9 and the name's size. With
-- more fuel than bytes it has run to its end.
unfoldable pub read_headers : ℕ → ℕ → Mapped → Headers → Headers
read_headers zero header_size m h = h
read_headers (suc fuel) header_size m h =
    let n = retrieve_number 4 h.l 4 m in
    let rest = read_headers fuel (header_size - 9 - n) m (read_header m h) in
    if header_size == 0 then h else rest

-- `for (t : queue)`: the indices stand one behind the other.
unfoldable pub place_indices : List (List ℕ) → ℕ → List (List ℕ × Sized) → ℕ × List (List ℕ × Sized)
place_indices [] l sizes = (l, sizes)
place_indices (t ∷ ts) l sizes =
    let old = get_or (find t sizes) new_sized in
    place_indices ts (add_size l old.size) (assign t (record old { offset = l % 2 ^ 32 }) sizes)

-- From the size of the headers on: the placed indices, and where the data begin.
unfoldable pub read_indices : ℕ → Mapped → ℕ × List (List ℕ × Sized)
unfolding read_headers place_indices
read_indices l m =
    let size = retrieve_number 4 l 4 m in
    let h = read_headers (suc size) size m (record { l = add_size l 4; queue = []; sizes = [] }) in
    place_indices h.queue h.l h.sizes
