-- ===== src/Server/Ttl.antt =====
-- rssdisk/rssdisk/disk_server.cpp, `server::run_ttl_remover`: files whose time is over are removed. For
-- each date there are lists, one path on each line; the handler waits until it has the lock of a file.
pub mod Gone
pub mod Examples
use mathlib.Core.Option
use rssdisk.Base.{
  ℕ, zero, suc, ◌+◌, ◌-◌, ◌%◌, ◌^◌, List, [], ◌∷◌, ◌++◌, Bool, true, false, ◌&&◌, not, Option, none,
  some, ltb, leb, ◌==◌, if◌then◌else◌, length, take, drop, bytes, bytes_eq,
}
use rssdisk.Base.Dict.{find, assign, erase, get_or}
use rssdisk.Server.Text.{decimal, is_space}
use rssdisk.Server.Disk.{Files, Directory, read_file, is_file_exists}
use rssdisk.Server.Message.{Config, Server, j_extension_name}
use rssdisk.Server.Remove.{give_back}
use rssdisk.Server.Read.{starts_with}

-- `getline` after `getline`: the parts between the marks; behind a last mark there is none.
unfoldable pub split : ℕ → List ℕ → List (List ℕ)
split m [] = []
split m (c ∷ cs) =
    let rest = split m cs in
    if c == m then [] ∷ rest else elim rest [ [] ↦ (c ∷ []) ∷ [] | p ∷ ps ↦ (c ∷ p) ∷ ps ]

ltrim : List ℕ → List ℕ
ltrim [] = []
ltrim (c ∷ cs) = let rest = ltrim cs in if is_space c then rest else c ∷ cs

rtrim : List ℕ → List ℕ
rtrim [] = []
rtrim (c ∷ cs) = let rest = rtrim cs in if is_space c && (length rest == 0) then [] else c ∷ rest

unfoldable pub trim : List ℕ → List ℕ
unfolding ltrim rtrim
trim s = ltrim (rtrim s)

-- `for (i = 0; i < exp.size() - 2; ++i)`, by the parts left and the rounds left: "/" before each part
-- that is not empty. Where a round finds no part left it reads past their end: `none`.
unfoldable pub join_parts : List (List ℕ) → ℕ → Option (List ℕ)
join_parts [] n = if n == 0 then some [] else none
join_parts (p ∷ ps) n =
    let rest = join_parts ps (n - 1) in
    if n == 0 then some [] else if length p == 0 then rest else Option.map (λ r. 47 ∷ (p ++ r)) rest

-- The directory of a file: its path without the segment and the name. `exp.size() - 2` is a size_t.
unfoldable pub directory_path : List (List ℕ) → Option (List ℕ)
unfolding join_parts
directory_path exp =
    Option.map (λ r. r ++ 47 ∷ []) (join_parts exp ((length exp + 2 ^ 64 - 2) % 2 ^ 64))

-- `path_index`: the sub folder of the first directory with this path, and the directory.
unfoldable pub find_path : List ℕ → List (List ℕ × Directory) → Option (List ℕ × Directory)
find_path path [] = none
find_path path ((folder, d) ∷ ds) =
    let rest = find_path path ds in if bytes_eq d.p path then some (folder, d) else rest

-- The sizes of the file and of its database file are given back.
unfoldable pub give_back_all : List ℕ → Directory → Files → Directory
give_back_all item dir files =
    let less = give_back item dir files in
    if is_file_exists (item ++ j_extension_name) files
    then give_back (item ++ j_extension_name) less files
    else less

unfoldable pub charge_less :
    Option (List ℕ × Directory)
    → List ℕ
    → Files
    → List (List ℕ × Directory)
    → List (List ℕ × Directory)
unfolding give_back_all
charge_less none item files dirs = dirs
charge_less (some (folder, d)) item files dirs = assign folder (give_back_all item d files) dirs

-- `std::remove` and `JDatabaseManager::deleteFile`, once the directory of the path is known.
unfoldable pub remove_item : List ℕ → Server → Option Server
unfolding charge_less find_path directory_path split
remove_item item s =
    Option.map
      (λ path. record {
        dirs = charge_less (find_path path s.dirs) item s.files s.dirs;
        files = erase (item ++ j_extension_name) (erase item s.files);
      })
      (directory_path (split 47 item))

unfoldable pub is_in : List ℕ → List (List ℕ) → Bool
is_in x [] = false
is_in x (y ∷ ys) = let rest = is_in x ys in if bytes_eq y x then true else rest

-- The loop over the lines.
unfoldable pub remove_items : List (List ℕ) → List (List ℕ) → Server → Option Server
unfolding trim is_in remove_item split
remove_items [] removed s = some s
remove_items (line ∷ lines) removed s =
    let item = trim line in
    let skipped = remove_items lines removed s in
    if is_in item removed
    then skipped
    else (if length item == 0 then skipped else elim (remove_item item s) [
      | none ↦ none
      | some s' ↦ remove_items lines (item ∷ removed) s'
    ])

-- `f_clear`.
unfoldable pub clear_list : List ℕ → Server → Option Server
unfolding remove_items split
clear_list path s = remove_items (split 10 (get_or (read_file path 0 s.files) [])) [] s

-- The numbered lists.
unfoldable pub clear_lists : ℕ → ℕ → List ℕ → Server → Option Server
unfolding clear_list
clear_lists zero i path s = some s
clear_lists (suc n) i path s = elim (clear_list (path ++ decimal i) s) [
  | none ↦ none
  | some s' ↦ clear_lists n (i + 1) path s'
]

-- `remove_all`.
unfoldable pub remove_below : List ℕ → Files → Files
remove_below dir [] = []
remove_below dir ((p, c) ∷ files) =
    let rest = remove_below dir files in
    if starts_with (dir ++ 47 ∷ []) p then rest else (p, c) ∷ rest

-- `remove_date`, in the directory of one date.
unfoldable pub remove_date : Config → List ℕ → Server → Option Server
unfolding clear_list clear_lists remove_below
remove_date conf dir s = elim (clear_list (dir ++ (47 ∷ 116 ∷ 116 ∷ 108 ∷ [])) s) [
  | none ↦ none
  | some s' ↦ elim (clear_lists conf.threads 0 (dir ++ (47 ∷ 116 ∷ 116 ∷ 108 ∷ [])) s') [
    | none ↦ none
    | some s'' ↦ some (record s'' { files = remove_below dir s''.files })
  ]
]

-- Over the directories of the dates that are due.
unfoldable pub run_ttl_remover : Config → List (List ℕ) → Server → Option Server
unfolding remove_date
run_ttl_remover conf [] s = some s
run_ttl_remover conf (dir ∷ due) s = elim (remove_date conf dir s) [
  | none ↦ none
  | some s' ↦ run_ttl_remover conf due s'
]
