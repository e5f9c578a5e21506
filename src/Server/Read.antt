-- ===== src/Server/Read.antt =====
-- rssdisk/rssdisk/disk_server.cpp, `server::read_file` and `server::read_file_info`.
use rssdisk.Base.{
  ℕ, zero, suc, ◌+◌, ◌%◌, List, [], ◌∷◌, ◌++◌, Bool, true, false, ◌&&◌, not, Option, none, some,
  ltb, ◌==◌, if◌then◌else◌, length, take, drop, bytes,
}
use rssdisk.Base.Dict.{find, get_or}
use rssdisk.Bitbase.{numeric_to_chars}
use rssdisk.Server.Text.{decimal, stoi}
use rssdisk.Server.WType.{
  WType, updatable, updatable_without_compress, jdb, ajdb, w_type, Status, ok, file_busy,
  cant_read_file, file_not_found, read_is_disabled,
}
use rssdisk.Server.Disk.{read_file as read_disk, Files, is_file_exists, Directory}
use rssdisk.Server.Message.{Config, Env, Server, folder_and_file, in_segment, j_extension_name}

-- What reading calls besides: `JDatabaseManager::fetch`, `crc32m::get_hash_of_file`, and what memory
-- holds behind the end of a string.
pub record Reader : Type 0 where
  pub fetch : List ℕ → List ℕ → Files → List ℕ
  pub get_hash_of_file : List ℕ → ℕ
  pub past_end : ℕ → ℕ

unfoldable pub starts_with : List ℕ → List ℕ → Bool
starts_with [] s = true
starts_with (p ∷ ps) [] = false
starts_with (p ∷ ps) (c ∷ cs) = (p == c) && starts_with ps cs

-- `find(pattern)`: what stands before the first place of the pattern, and from it on.
unfoldable pub find_text : List ℕ → List ℕ → Option (List ℕ × List ℕ)
unfolding starts_with
find_text pat [] = if starts_with pat [] then some ([], []) else none
find_text pat (c ∷ cs) =
    let rest = find_text pat cs in
    if starts_with pat (c ∷ cs)
    then some ([], c ∷ cs)
    else elim rest [ none ↦ none | some r ↦ some (c ∷ r.0, r.1) ]

-- "?jdb"
abbrev pub jdb_mark : List ℕ
jdb_mark = 63 ∷ 106 ∷ 100 ∷ 98 ∷ []

-- The status, and the content.
abbrev pub Answered : Type 0
Answered = Status × List ℕ

unfoldable pub answer_content : Option (List ℕ) → Answered
answer_content none = (cant_read_file, [])
answer_content (some []) = (cant_read_file, [])
answer_content (some (c ∷ cs)) = (ok, c ∷ cs)

unfoldable pub read_in_dir :
    Option Directory → Reader → Option (List ℕ) → List ℕ → Server → Answered
unfolding answer_content
read_in_dir none r query qry server = (file_not_found, [])
read_in_dir (some d) r query qry server =
    let path = d.p ++ qry in
    if is_file_exists path server.files
    then answer_content (elim query [
      | none ↦ read_disk path 0 server.files
      | some q ↦ some (r.fetch path q server.files)
    ])
    else (file_not_found, [])

-- The name without the query, and the query.
unfoldable pub name_and_query : List ℕ → List ℕ × Option (List ℕ)
unfolding find_text
name_and_query name = elim (find_text jdb_mark name) [
  | none ↦ (name, none)
  | some r ↦ (r.0, some (drop 4 r.1))
]

-- `locked` is the answer of `lock_to_write.add(qry, false)`.
unfoldable pub read_file : Bool → Env → Config → Reader → List ℕ → Server → Answered
unfolding read_in_dir name_and_query folder_and_file in_segment
read_file locked env conf r file_name server =
    let names = folder_and_file file_name in
    let nq = name_and_query names.1 in
    let qry = in_segment env nq.0 in
    if not locked
    then (file_busy, [])
    else (if conf.enable_read
        then read_in_dir (find names.0 server.dirs) r nq.1 qry server
        else (read_is_disabled, []))

-- `content[i]`, also past the end.
char_at : Reader → ℕ → List ℕ → ℕ
char_at r i s = elim (drop i s) [ [] ↦ r.past_end i | c ∷ cs ↦ c ]

-- The loop over the time to live: at most 10 characters up to a space.
end_of_ttl : ℕ → Reader → ℕ → List ℕ → ℕ
unfolding char_at
end_of_ttl zero r i s = i
end_of_ttl (suc n) r i s =
    let rest = end_of_ttl n r (i + 1) s in if char_at r i s == 32 then i else rest

-- The bytes of the kind, and of the time and checksum that some kinds have.
unfoldable pub fixed_header : WType → ℕ
fixed_header updatable = 18
fixed_header updatable_without_compress = 18
fixed_header jdb = 18
fixed_header ajdb = 18
fixed_header t = 2

-- The header at the front of the first 64 bytes of a file.
unfoldable pub info_of : Reader → List ℕ → Answered
unfolding end_of_ttl fixed_header
info_of r content =
    let l = fixed_header (w_type (stoi (take 2 content) 7)) in
    let last = end_of_ttl 10 r (l + 20) content in
    if ltb 18 (length content)
    then (ok, if ltb last (length content) then take last content else take 18 content)
    else (cant_read_file, content)

-- The data file of a database: its kind, and the checksum of the file.
unfoldable pub data_info : Reader → List ℕ → Answered
data_info r path =
    let sum = r.get_hash_of_file path in
    if sum == 0 then (cant_read_file, []) else (ok, 48 ∷ 54 ∷ numeric_to_chars 4 sum)

info_in_dir : Option Directory → Reader → List ℕ → Server → Answered
unfolding data_info info_of find_text
info_in_dir none r qry server = (file_not_found, [])
info_in_dir (some d) r qry server =
    let path = d.p ++ qry in
    if is_file_exists path server.files
    then elim (find_text j_extension_name qry) [
      | some at ↦ data_info r path
      | none ↦ info_of r (get_or (read_disk path 64 server.files) [])
    ]
    else (file_not_found, [])

-- `replaceAll(s, pattern, "")`: the places are searched from left to right.
replace_loop : ℕ → List ℕ → List ℕ → List ℕ
unfolding find_text
replace_loop zero pat s = s
replace_loop (suc n) pat s = elim (find_text pat s) [
  | none ↦ s
  | some r ↦ r.0 ++ replace_loop n pat (drop (length pat) r.1)
]

unfoldable pub read_file_info : Bool → Env → Config → Reader → List ℕ → Server → Answered
unfolding info_in_dir replace_loop name_and_query folder_and_file in_segment
read_file_info locked env conf r file_name server =
    let names = folder_and_file (name_and_query file_name).0 in
    let for_segment = replace_loop (length names.1) j_extension_name names.1 in
    let qry = decimal (env.hash for_segment % 1000) ++ (47 ∷ []) ++ names.1 in
    if not locked
    then (file_busy, [])
    else (if conf.enable_read
        then info_in_dir (find names.0 server.dirs) r qry server
        else (read_is_disabled, []))
