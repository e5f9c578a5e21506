-- ===== src/Server/Disk.antt =====
-- rssdisk/rssdisk/disk_helper.hpp: files on the disk, and the sizes that a directory is charged for.
-- The disk is what each path holds. Opening a file to write it fails where `opens` says so, and a file
-- that opens takes what is written.
use rssdisk.Base.{
  ℕ, ◌+◌, ◌-◌, ◌*◌, ◌/◌, ◌%◌, ◌^◌, List, [], ◌∷◌, ◌++◌, Bool, true, false, Option, none, some, ltb,
  ◌==◌, if◌then◌else◌, length, take, bytes,
}
use rssdisk.Base.Dict.{find, assign, erase, get_or}
use rssdisk.Server.Text.{to_string}

abbrev pub Files : Type 0
Files = List (List ℕ × List ℕ)

pub record Io : Type 0 where
  pub opens : List ℕ → Bool
  -- `date_time::current_date_time().get_date_time()`.
  pub now : List ℕ

-- Of a file that does not open, `tellg` is -1, and a size_t keeps that as its largest number.
unfoldable pub get_file_size : List ℕ → Files → ℕ
get_file_size path d = elim (find path d) [ none ↦ 2 ^ 64 - 1 | some c ↦ length c ]

unfoldable pub is_file_exists : List ℕ → Files → Bool
is_file_exists path d = elim (find path d) [ none ↦ false | some c ↦ true ]

-- `s / fs_block_size + 1` as an int32_t, times the block size, as a 64-bit pattern.
unfoldable pub whole_blocks : ℕ → ℕ → ℕ
whole_blocks s fs =
    let n = (s / fs + 1) % 2 ^ 32 in
    (if ltb n (2 ^ 31) then n * fs else n * fs + (2 ^ 64 - 2 ^ 32) * fs) % 2 ^ 64

-- `get_file_size_fs_block_size`.
unfoldable pub get_file_size_fs_block_size : List ℕ → ℕ → Files → ℕ
unfolding get_file_size whole_blocks
get_file_size_fs_block_size path fs d = whole_blocks (get_file_size path d) fs

-- `count = s != 0 ? s / fs_block_size + 1 : 0`, and the size that this number of blocks has; sizes
-- stay as they are if there is no block size.
unfoldable pub charged : ℕ → ℕ → ℕ
unfolding whole_blocks
charged s fs = if fs == 0 then s else (if s == 0 then 0 else whole_blocks s fs)

unfoldable pub concat : List (List ℕ) → List ℕ
concat [] = []
concat (h ∷ hs) = h ++ concat hs

unfoldable pub header_size : List (List ℕ) → ℕ
header_size [] = 0
header_size (h ∷ hs) = length h + header_size hs

pub record Written : Type 0 where
  pub success : Bool
  pub size : ℕ
  pub files : Files

-- `size += n`, the size an int32_t and n a size_t.
unfoldable pub add_bytes : ℕ → ℕ → ℕ
add_bytes size n = (size + n) % 2 ^ 32

-- The bytes of the file, and the size that is counted for them: 20 bytes for the date and the space,
-- whatever `get_date_time` is.
unfoldable pub file_bytes : Io → List ℕ → ℕ → List (List ℕ) → Bool → List ℕ
unfolding concat to_string
file_bytes io content ttl headers write_headers =
    if write_headers
    then concat headers ++ (io.now ++ (to_string ttl ++ (32 ∷ content)))
    else content

unfoldable pub counted_size : List ℕ → ℕ → List (List ℕ) → Bool → ℕ
unfolding header_size to_string
counted_size content ttl headers write_headers =
    if write_headers
    then length content + (20 + length (to_string ttl)) + header_size headers
    else length content

unfoldable pub write_file_to_disk :
    Io → List ℕ → List ℕ → ℕ → ℕ → ℕ → List (List ℕ) → Bool → Files → Written
unfolding get_file_size charged add_bytes file_bytes counted_size
write_file_to_disk io path [] size ttl fs headers write_headers d = record {
  success = true;
  size = add_bytes size (2 ^ 64 - charged (get_file_size path d) fs);
  files = erase path d;
}
write_file_to_disk io path (c ∷ cs) size ttl fs headers write_headers d =
    let new = counted_size (c ∷ cs) ttl headers write_headers in
    if io.opens path
    then record {
      success = true;
      size = add_bytes size (charged new fs + (2 ^ 64 - charged (get_file_size path d) fs));
      files = assign path (file_bytes io (c ∷ cs) ttl headers write_headers) d;
    }
    else record { success = false; size = size; files = d }

-- `append_to_file`.
unfoldable pub append_to_file : Io → List ℕ → List ℕ → Files → Bool × Files
append_to_file io path content d =
    if io.opens path then (true, assign path (get_or (find path d) [] ++ content) d) else (false, d)

-- `read_file`: the first bytes, or all for 0. A file that is there opens.
unfoldable pub read_file : List ℕ → ℕ → Files → Option (List ℕ)
read_file path max_bytes_read d = elim (find path d) [
  | none ↦ none
  | some c ↦ some (if max_bytes_read == 0 then c else take max_bytes_read c)
]

pub record Directory : Type 0 where
  pub enabled : Bool
  pub p : List ℕ
  pub max_size_b : ℕ
  pub curr_size_b : ℕ
  pub fs_block_size_b : ℕ

-- An int32_t is added to an int64_t.
unfoldable pub inc_curr_disk_size : ℕ → Directory → Directory
inc_curr_disk_size sz dir = record dir {
  curr_size_b =
      (dir.curr_size_b + (if ltb sz (2 ^ 31) then sz else sz + (2 ^ 64 - 2 ^ 32))) % 2 ^ 64;
}
