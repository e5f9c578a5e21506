-- ===== src/Server/Accept.antt =====
-- rssdisk/rssdisk/disk_server.cpp, `server::accept_file`: the message of a client that writes a file.
pub mod Outcome
pub mod Guards
pub mod Documents
pub mod Stored
pub mod Charges
pub mod Appends
use rssdisk.Base.{
  ℕ, zero, suc, ◌+◌, ◌-◌, ◌*◌, ◌/◌, ◌%◌, ◌^◌, List, [], ◌∷◌, ◌++◌, Bool, true, false, ◌&&◌, not,
  Option, none, some, ltb, leb, ◌==◌, if◌then◌else◌, length, take, drop, bytes,
}
use rssdisk.Base.Words.{ltb_i64}
use rssdisk.Base.Dict.{find, assign, get_or}
use rssdisk.Bitbase.{chars_to_numeric}
use rssdisk.OpLog.{Change}
use rssdisk.Server.Text.{to_string, decimal, stoi}
use rssdisk.Server.WType.{
  WType, insert_only, updatable, insert_only_without_compress, updatable_without_compress, jdb,
  jdb_formed, jdb_data, none_type, edb, ajdb, cdb, cdbm, appendable, unlisted, w_type, to_int,
  Status, ok, to_small_content_size, all_directories_are_full, cant_write_file_to_disk,
  file_name_must_not_be_empty, file_busy, too_long_filename, auth_failed, incorrect_secure_key,
  write_is_disabled, subfolder_not_found,
}
use rssdisk.Server.Disk.{
  Files, Io, is_file_exists, Written, write_file_to_disk, append_to_file, Directory,
  inc_curr_disk_size, add_bytes, concat,
}
use rssdisk.Server.Header.{Header, parse_header}
use rssdisk.Server.Message.{
  Config, DatabaseContent, Env, Server, Response, Accepted, only_status, refuse, split_folder,
  folder_and_file, in_segment, two_digits, timed_headers, headers_of, is_oplog, is_jdb,
  is_appendable, j_extension_name,
}
use rssdisk.Server.Content.{
  Prepared, write_database, nothing_more, store_database, prepare_jdb, prepare, appended_bytes,
  write_prepared, append_ttl, write_ttl,
}

-- The change that `on_write_` is told of, from the second and third header.
unfoldable pub change_of : List ℕ → List (List ℕ) → List Change
change_of name (t ∷ tms ∷ crc ∷ hs) =
    record { filename = name; tms = chars_to_numeric 8 tms; crc32 = chars_to_numeric 8 crc } ∷ []
change_of name hs = []

abbrev pub no_headers : List ℕ
no_headers = 48 ∷ 48 ∷ []

unfoldable pub or_no_headers : List (List ℕ) → List (List ℕ)
or_no_headers [] = no_headers ∷ []
or_no_headers (h ∷ hs) = h ∷ hs

-- The kind, and nothing where the flags are shorter than two characters.
unfoldable pub kind_of : List ℕ → WType
kind_of flags = if leb 2 (length flags) then w_type (stoi (take 2 flags) 0) else none_type

unfoldable pub is_positive : ℕ → Bool
is_positive ttl = ltb 0 ttl && ltb ttl (2 ^ 31)

-- What is answered once the file is written.
unfoldable pub finish :
    Env → Config → List ℕ → List ℕ → List ℕ → List ℕ → ℕ → Prepared → Written → Server → Accepted
unfolding is_oplog change_of or_no_headers write_ttl kind_of is_positive headers_of
finish env conf base_filename flags folder path ttl prep w server =
    let t = kind_of flags in
    let headers = headers_of t flags in
    let listed = write_ttl env conf ttl path w.files in
    let timed = is_positive ttl && not prep.is_append in
    if w.success
    then record {
      response = record {
        status = ok;
        bytes_written = some w.size;
        file_name = base_filename;
        headers = concat (or_no_headers headers);
        jdb_written = prep.jdb_written;
        ttl_success = if timed then some listed.0 else none;
      };
      server = record {
        dirs = assign folder (inc_curr_disk_size w.size prep.dir) server.dirs;
        files = if timed then listed.1 else w.files;
      };
      oplog = if is_oplog t flags then change_of base_filename headers else [];
    }
    else record {
      response = record (only_status cant_write_file_to_disk) { jdb_written = prep.jdb_written };
      server = record { dirs = assign folder prep.dir server.dirs; files = w.files };
      oplog = [];
    }

unfoldable pub write_accepted :
    Env → Config → Header → List ℕ → List ℕ → List ℕ → Directory → Server → Accepted
unfolding prepare write_prepared finish kind_of headers_of or_no_headers
write_accepted env conf h content folder path dir server =
    let t = kind_of h.flags in
    let ttl = stoi h.ttl_days 0 in
    let prep = prepare env t content h.start_content_from path dir server.files in
    let exists = is_file_exists path server.files in
    let w = write_prepared env t ttl (or_no_headers (headers_of t h.flags)) path exists prep in
    if prep.ok_jdb_write
    then finish env conf h.file_name h.flags folder path ttl prep w server
    else record {
      response = record (only_status cant_write_file_to_disk) { jdb_written = prep.jdb_written };
      server = record { dirs = assign folder prep.dir server.dirs; files = prep.files };
      oplog = [];
    }

-- A new file needs a directory that is enabled and not full.
unfoldable pub is_write_enabled : List ℕ → Directory → Files → Bool
is_write_enabled path dir files =
    if is_file_exists path files
    then true
    else dir.enabled && ltb_i64 dir.curr_size_b dir.max_size_b

accept_in_dir :
    Option Directory → Env → Config → Header → List ℕ → List ℕ → List ℕ → Server → Accepted
unfolding write_accepted is_write_enabled
accept_in_dir none env conf h content folder file server = refuse subfolder_not_found server
accept_in_dir (some dir) env conf h content folder file server =
    let path = dir.p ++ file in
    if is_write_enabled path dir server.files
    then write_accepted env conf h content folder path dir server
    else refuse all_directories_are_full server

-- The message is taken apart; `locked` is the answer of `lock_to_write.add(file_name, true)`.
unfoldable pub accept_header : Bool → Env → Config → Header → List ℕ → Server → Accepted
unfolding accept_in_dir folder_and_file in_segment
accept_header locked env conf h content server =
    let names = folder_and_file h.file_name in
    let file = in_segment env names.1 in
    if ltb 64 (length h.file_name)
    then refuse too_long_filename server
    else (if not h.is_auth_ok
        then refuse auth_failed server
        else (if length names.1 == 0
            then refuse file_name_must_not_be_empty server
            else (if not locked
                then refuse file_busy server
                else accept_in_dir (find names.0 server.dirs) env conf h content names.0 file
                    server)))

unfoldable pub accept_file : Bool → Env → Config → List ℕ → Bool → Bool → Server → Accepted
unfolding accept_header
accept_file locked env conf content need_check_auth need_check_aes server =
    let plain =
      (if need_check_aes && not (length conf.aes_key == 0) then env.decrypt content else content) in
    let h = parse_header need_check_auth conf.auth plain in
    if not (ltb 2 (length content))
    then refuse to_small_content_size server
    else (if not conf.enable_write
        then refuse write_is_disabled server
        else (if not (ltb 2 (length plain))
            then refuse incorrect_secure_key server
            else accept_header locked env conf h plain server))
