-- ===== src/JsonDb/Index/Entries.antt =====
-- What an index that packs a list of entries holds, and that `extractIndex` reads its entries.
use rssdisk.Base.{
  ℕ, zero, suc, ◌+◌, ◌*◌, ◌%◌, ◌^◌, ◌≤◌, ◌<◌, ◌≡◌, refl, ◌∙◌, List, [], ◌∷◌, ◌++◌, true, false,
  arith, ltb, length, length-append, drop, append_assoc, All,
}
use rssdisk.Bitbase.{numeric_to_chars, chars_to_numeric}
use rssdisk.Bitbase.RoundTrip.{length-numeric_to_chars, chars_to_numeric-numeric_to_chars}
use rssdisk.JsonDb.Index.{
  Index, Extract, cleared, extract_byte, extract_loop, extract_index, entry_bytes,
}

pub record Entry : Type 0 where
  pub i : ℕ
  pub offset : ℕ
  pub size : ℕ

-- The numbers of an entry fit their fields.
pub record Fits (e : Entry) : Type 0 where
  pub i_fits : e.i < 2 ^ 64
  pub offset_fits : e.offset < 2 ^ 32
  pub size_fits : e.size < 2 ^ 32

unfoldable pub pack : List Entry → List ℕ
unfolding entry_bytes
pack [] = []
pack (e ∷ es) = entry_bytes e.i e.offset e.size ++ pack es

-- The entry at a position, or one of zeros.
abbrev pub entry_at : List Entry → ℕ → Entry
entry_at [] c = record { i = 0; offset = 0; size = 0 }
entry_at (e ∷ es) zero = e
entry_at (e ∷ es) (suc c) = entry_at es c

-- An index object that has the values of an entry.
abbrev pub holding : Entry → Index → Index
holding e d = record d { i = e.i; dd = record (d.dd) { offset = e.offset; size = e.size } }

pub length-entry_bytes : (i offset size : ℕ) → length (entry_bytes i offset size) ≡ 16
unfolding entry_bytes
length-entry_bytes i offset size = omega (
  arith,
  length-append (numeric_to_chars 8 i) (numeric_to_chars 4 offset ++ numeric_to_chars 4 size),
  length-append (numeric_to_chars 4 offset) (numeric_to_chars 4 size),
  length-numeric_to_chars 8 i,
  length-numeric_to_chars 4 offset,
  length-numeric_to_chars 4 size,
)

pub length-pack : (es : List Entry) → length (pack es) ≡ length es * 16
unfolding pack
length-pack [] = omega arith
length-pack (e ∷ es) = omega (
  arith,
  length-append (entry_bytes e.i e.offset e.size) (pack es),
  length-entry_bytes e.i e.offset e.size,
  length-pack es,
)

pub pack-append : (es fs : List Entry) → pack (es ++ fs) ≡ pack es ++ pack fs
unfolding pack
pack-append [] fs = refl
pack-append (e ∷ es) fs = rw (pack-append es fs, append_assoc (entry_bytes e.i e.offset e.size))

abbrev begin : Index → Extract
begin d = record { bytes = []; field = 0; index = cleared d; stopped = false }

extract_loop-entry_bytes :
    (i offset size : ℕ) (rest : List ℕ) (d : Index)
    → (extract_loop 16 (entry_bytes i offset size ++ rest) (begin d)).index
      ≡ holding
          (record {
            i = chars_to_numeric 8 (numeric_to_chars 8 i);
            offset = chars_to_numeric 4 (numeric_to_chars 4 offset);
            size = chars_to_numeric 4 (numeric_to_chars 4 size);
          })
          d
unfolding extract_loop extract_byte entry_bytes numeric_to_chars
extract_loop-entry_bytes i offset size rest d = refl

read_entry :
    (e : Entry) (rest : List ℕ) (d : Index)
    → Fits e
    → (extract_loop 16 (entry_bytes e.i e.offset e.size ++ rest) (begin d)).index ≡ holding e d
read_entry e rest d h =
    let i : chars_to_numeric 8 (numeric_to_chars 8 e.i) ≡ e.i =
      chars_to_numeric-numeric_to_chars 8 8 e.i (omega arith) h.i_fits in
    let offset : chars_to_numeric 4 (numeric_to_chars 4 e.offset) ≡ e.offset =
      chars_to_numeric-numeric_to_chars 4 4 e.offset (omega arith) h.offset_fits in
    let size : chars_to_numeric 4 (numeric_to_chars 4 e.size) ≡ e.size =
      chars_to_numeric-numeric_to_chars 4 4 e.size (omega arith) h.size_fits in
    extract_loop-entry_bytes e.i e.offset e.size rest d ∙ simp (i, offset, size)

abbrev bytes_at : List Entry → ℕ → List ℕ
bytes_at es c = let e = entry_at es c in entry_bytes e.i e.offset e.size

-- The drop of a whole entry.
drop_entry :
    (e : Entry) (t : List ℕ) (n : ℕ)
    → drop (16 + n) (entry_bytes e.i e.offset e.size ++ t) ≡ drop n t
unfolding entry_bytes numeric_to_chars
drop_entry e t n =
    let s : 16 + n
        ≡ suc (
            suc (
              suc
                (suc (suc (suc (suc (suc (suc (suc (suc (suc (suc (suc (suc (suc n))))))))))))))) =
      omega arith in
    rw s

-- What stands in the string from an entry on.
drop-pack :
    (es : List Entry) (c : ℕ)
    → c < length es
    → (rest : List ℕ) × (drop (c * 16) (pack es) ≡ bytes_at es c ++ rest)
drop-pack [] c h = absurd (omega arith)
drop-pack (e ∷ es) zero h = (pack es, unfold pack in refl)
drop-pack (e ∷ es) (suc c) h =
    let (rest, at) = drop-pack es c (omega arith) in
    let s : suc c * 16 ≡ 16 + c * 16 = omega arith in
    (rest, rw s (unfold pack in drop_entry e (pack es) (c * 16)) ∙ at)

pub All-entry_at : (es : List Entry) (c : ℕ) → All Fits es → c < length es → Fits (entry_at es c)
All-entry_at [] c h lt = absurd (omega arith)
All-entry_at (e ∷ es) zero h lt = h.0
All-entry_at (e ∷ es) (suc c) h lt = All-entry_at es c h.1 (omega arith)

-- `extractIndex` reads the entry at a position, and leaves the rest of the index object.
pub extract_index-pack :
    (es : List Entry) (c : ℕ) (d : Index)
    → All Fits es
    → length es < 2 ^ 60
    → c < length es
    → extract_index (pack es) c d ≡ holding (entry_at es c) d
unfolding extract_index
extract_index-pack es c d fits small h =
    let from : c * 16 % 2 ^ 64 ≡ c * 16 = omega arith in
    let (rest, at) = drop-pack es c h in
    let inside : ltb (c * 16) (length (pack es)) ≡ true = ground (arith, length-pack es) in
    rw (from, inside, at) (read_entry (entry_at es c) rest d (All-entry_at es c fits h))

-- Past the last entry it reads zeros.
pub extract_index-pack_end :
    (es : List Entry) (c : ℕ) (d : Index)
    → length es ≤ c
    → c < 2 ^ 60
    → extract_index (pack es) c d ≡ cleared d
unfolding extract_index
extract_index-pack_end es c d h small =
    let from : c * 16 % 2 ^ 64 ≡ c * 16 = omega arith in
    let outside : ltb (c * 16) (length (pack es)) ≡ false = ground (arith, length-pack es) in
    rw (from, outside)
