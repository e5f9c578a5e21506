-- ===== src/Server/Ttl/Examples.antt =====
-- Two lists of files to remove: one that names a file, and one whose line is no path.
use rssdisk.Base.{
  ℕ, ◌<◌, ◌≡◌, refl, List, [], ◌∷◌, true, none, some, if◌then◌else◌, length, All, bytes, arith, inr,
}
use rssdisk.Base.Dict.{find}
use rssdisk.Server.Text.{is_space}
use rssdisk.Server.Disk.{Directory, read_file as read_disk}
use rssdisk.Server.Message.{Server}
use rssdisk.Server.Ttl.{split, trim, clear_list}
use rssdisk.Server.Ttl.Gone.{IsItem, lines_of, is_listed, clear_list-gone, clear_list_crash}

abbrev dir : Directory
dir = record {
  enabled = true;
  p = 47 ∷ 100 ∷ 47 ∷ [];
  max_size_b = 100000;
  curr_size_b = 4096;
  fs_block_size_b = 4096;
}

abbrev list_path : List ℕ
list_path = 116 ∷ []

abbrev with_list : Server
with_list = record {
  dirs = ([], dir) ∷ [];
  files =
      (list_path, 47 ∷ 100 ∷ 47 ∷ 55 ∷ 47 ∷ 97 ∷ 10 ∷ [])
      ∷ (47 ∷ 100 ∷ 47 ∷ 55 ∷ 47 ∷ 97 ∷ [], 9 ∷ [])
      ∷ [];
}

abbrev with_bad_list : Server
with_bad_list = record {
  dirs = ([], dir) ∷ [];
  files = (list_path, 47 ∷ 97 ∷ 10 ∷ 98 ∷ 10 ∷ []) ∷ [];
}

with_list-All : All IsItem (lines_of list_path with_list)
unfolding split trim is_space find read_disk
with_list-All = (inr (omega arith), tt)

clear_list-gone_example :
    (s' : Server) × (clear_list list_path with_list ≡ some s')
    × ((j : List ℕ)
        → find j s'.files
          ≡ (if is_listed j (lines_of list_path with_list) then none else find j with_list.files))
clear_list-gone_example = clear_list-gone list_path with_list with_list-All

bad_lines : lines_of list_path with_bad_list ≡ (47 ∷ 97 ∷ []) ∷ (98 ∷ []) ∷ []
unfolding split find read_disk
bad_lines = refl

some_line : 0 < length (trim (98 ∷ []))
unfolding trim is_space
some_line = omega arith

one_part : length (split 47 (trim (98 ∷ []))) < 2
unfolding split trim is_space
one_part = omega arith

clear_list_crash_example : clear_list list_path with_bad_list ≡ none
clear_list_crash_example =
    clear_list_crash list_path (98 ∷ []) ((47 ∷ 97 ∷ []) ∷ []) [] with_bad_list bad_lines some_line
      one_part
