-- ===== src/Server/Message.antt =====
-- rssdisk/rssdisk/disk_server.cpp, what the handlers share: the settings, the answers, the names of
-- files, and the headers that a file of each kind gets.
use rssdisk.Base.{
  ℕ, ◌%◌, List, [], ◌∷◌, ◌++◌, Bool, true, false, Option, none, some, ◌==◌, if◌then◌else◌, length,
  take, drop, bytes,
}
use rssdisk.OpLog.{Change}
use rssdisk.Server.Text.{decimal}
use rssdisk.Server.WType.{
  WType, updatable, insert_only_without_compress, updatable_without_compress, jdb, jdb_formed, ajdb,
  appendable, to_int, Status,
}
use rssdisk.Server.Disk.{Files, Io, Directory}

pub record Config : Type 0 where
  pub enable_read : Bool
  pub enable_write : Bool
  pub auth : List ℕ
  pub aes_key : List ℕ
  pub threads : ℕ

-- `JDatabaseManager::DatabaseContent`.
pub record DatabaseContent : Type 0 where
  pub title : List ℕ
  pub body : List ℕ
  pub version : ℕ
  pub append : Bool
  pub error_occurred : Bool

-- What the server calls: the disk, `std::hash`, the cipher under its key, the JSON database, and the
-- path "<ttl directory><date in so many days>/ttl".
pub record Env : Type 0 where
  pub io : Io
  pub hash : List ℕ → ℕ
  pub decrypt : List ℕ → List ℕ
  pub create_database_content : List ℕ → List ℕ → List ℕ → WType → Files → DatabaseContent
  pub path_ttl : ℕ → List ℕ

pub record Server : Type 0 where
  pub dirs : List (List ℕ × Directory)
  pub files : Files

-- The JSON object of the answer, without its time.
pub record Response : Type 0 where
  pub status : Status
  pub bytes_written : Option ℕ
  pub file_name : List ℕ
  pub headers : List ℕ
  pub jdb_written : Option ℕ
  pub ttl_success : Option Bool

pub record Accepted : Type 0 where
  pub response : Response
  pub server : Server
  -- The calls of `on_write_`.
  pub oplog : List Change

abbrev pub only_status : Status → Response
only_status s = record {
  status = s;
  bytes_written = none;
  file_name = [];
  headers = [];
  jdb_written = none;
  ttl_success = none;
}

abbrev pub refuse : Status → Server → Accepted
refuse s server = record { response = only_status s; server = server; oplog = [] }

-- Up to the first "/", and behind it; without one, no folder.
unfoldable pub split_folder : List ℕ → Option (List ℕ × List ℕ)
split_folder [] = none
split_folder (c ∷ cs) =
    let rest = split_folder cs in
    if c == 47 then some ([], cs) else elim rest [ none ↦ none | some r ↦ some (c ∷ r.0, r.1) ]

unfoldable pub folder_and_file : List ℕ → List ℕ × List ℕ
unfolding split_folder
folder_and_file name = elim (split_folder name) [ none ↦ ([], name) | some r ↦ r ]

-- `to_string(get_segment_folder(name)) + "/" + name`.
unfoldable pub in_segment : Env → List ℕ → List ℕ
in_segment env name = decimal (env.hash name % 1000) ++ (47 ∷ []) ++ name

-- `w_type_str`, with a zero in front of one digit.
unfoldable pub two_digits : WType → List ℕ
two_digits t = let s = decimal (to_int t) in if length s == 1 then 48 ∷ s else s

unfoldable pub timed_headers : List ℕ → List ℕ → List (List ℕ)
timed_headers t flags =
    if length flags == 18 then t ∷ take 8 (drop 2 flags) ∷ take 8 (drop 10 flags) ∷ [] else []

-- The headers of each kind, from flags of two characters or more.
unfoldable pub headers_of : WType → List ℕ → List (List ℕ)
unfolding timed_headers two_digits
headers_of updatable flags = timed_headers (two_digits updatable) flags
headers_of updatable_without_compress flags =
    timed_headers (two_digits updatable_without_compress) flags
headers_of jdb flags = timed_headers (two_digits jdb) flags
headers_of ajdb flags = timed_headers (two_digits ajdb) flags
headers_of jdb_formed flags = timed_headers (two_digits jdb) flags
headers_of insert_only_without_compress flags = two_digits insert_only_without_compress ∷ []
headers_of appendable flags =
    if length flags == 10 then decimal 12 ∷ take 8 (drop 2 flags) ∷ [] else []
headers_of t flags = []

-- `is_oplog`: other servers are told of the write.
unfoldable pub is_oplog : WType → List ℕ → Bool
is_oplog updatable flags = length flags == 18
is_oplog updatable_without_compress flags = length flags == 18
is_oplog jdb flags = length flags == 18
is_oplog jdb_formed flags = length flags == 18
is_oplog t flags = false

unfoldable pub is_jdb : WType → Bool
is_jdb jdb = true
is_jdb ajdb = true
is_jdb t = false

unfoldable pub is_appendable : WType → Bool
is_appendable appendable = true
is_appendable t = false

-- `get_j_extension_name()`.
abbrev pub j_extension_name : List ℕ
j_extension_name = 46 ∷ 106 ∷ 100 ∷ 98 ∷ 95 ∷ 100 ∷ 97 ∷ 116 ∷ 97 ∷ []
