-- ===== src/Server/Remove.antt =====
-- rssdisk/rssdisk/disk_server.cpp, `server::remove_file_by_tms`: a file is removed because another
-- server has a later one.
pub mod Newest
use rssdisk.Base.{
  ℕ, zero, suc, ◌+◌, ◌-◌, ◌*◌, ◌/◌, ◌%◌, ◌^◌, List, [], ◌∷◌, ◌++◌, Bool, true, false, ◌&&◌, not,
  Option, none, some, ltb, leb, ◌==◌, if◌then◌else◌, length, take, drop, bytes,
}
use rssdisk.Base.Words.{ltb_i64}
use rssdisk.Base.Dict.{find, assign, erase, get_or}
use rssdisk.Bitbase.{chars_to_numeric}
use rssdisk.OpLog.{Change}
use rssdisk.Server.Text.{to_string, decimal, stoi}
use rssdisk.Server.WType.{
  WType, insert_only, updatable, insert_only_without_compress, updatable_without_compress, jdb,
  jdb_formed, jdb_data, none_type, edb, ajdb, cdb, cdbm, appendable, unlisted, w_type, to_int,
  Status, ok, to_small_content_size, all_directories_are_full, cant_write_file_to_disk,
  file_name_must_not_be_empty, file_busy, too_long_filename, auth_failed, incorrect_secure_key,
  write_is_disabled, subfolder_not_found,
}
use rssdisk.Server.Disk.{
  get_file_size_fs_block_size, read_file, Files, Io, is_file_exists, Written, write_file_to_disk,
  append_to_file, Directory, inc_curr_disk_size, add_bytes, concat,
}
use rssdisk.Server.Header.{Header, parse_header}
use rssdisk.Server.Message.{
  Config, DatabaseContent, Env, Server, Response, Accepted, only_status, refuse, split_folder,
  folder_and_file, in_segment, two_digits, timed_headers, headers_of, is_oplog, is_jdb,
  is_appendable, j_extension_name,
}

-- `type [01] tms [00000000] crc32 [00000000]`, the numbers signed.
unfoldable pub is_older : List ℕ → ℕ → ℕ → Bool
is_older content tms crc32 =
    let file_tms = chars_to_numeric 8 (take 8 (drop 2 content)) in
    let file_crc32 = chars_to_numeric 8 (take 8 (drop 10 content)) in
    if ltb_i64 file_tms tms then true else (file_tms == tms) && ltb_i64 file_crc32 crc32

-- Whether a file of this kind gives way.
unfoldable pub gives_way : WType → List ℕ → ℕ → ℕ → Bool
unfolding is_older
gives_way updatable content tms crc32 = is_older content tms crc32
gives_way updatable_without_compress content tms crc32 = is_older content tms crc32
gives_way jdb content tms crc32 = is_older content tms crc32
gives_way ajdb content tms crc32 = false
gives_way t content tms crc32 = true

-- `content` is the first 64 bytes of the file.
unfoldable pub need_remove : List ℕ → ℕ → ℕ → Bool
unfolding gives_way
need_remove content tms crc32 =
    if leb 18 (length content)
    then gives_way (w_type (stoi (take 2 content) 0)) content tms crc32
    else false

-- The size is given back, and the file removed.
unfoldable pub give_back : List ℕ → Directory → Files → Directory
give_back path dir files =
    let size = get_file_size_fs_block_size path dir.fs_block_size_b files % 2 ^ 32 in
    inc_curr_disk_size ((2 ^ 32 - size) % 2 ^ 32) dir

-- `check_additionals`: the data file of a database.
unfoldable pub remove_data : List ℕ → Directory → Files → Directory × Files
unfolding give_back
remove_data path dir files =
    if is_file_exists path files then (give_back path dir files, erase path files) else (dir, files)

unfoldable pub remove_file : List ℕ → Directory → Files → Directory × Files
unfolding give_back remove_data
remove_file path dir files =
    remove_data (path ++ j_extension_name) (give_back path dir files) (erase path files)

unfoldable pub remove_in_dir :
    Option Directory → List ℕ → List ℕ → ℕ → ℕ → Bool → Server → Bool × Server
unfolding need_remove remove_file
remove_in_dir none folder file tms crc32 force server = (true, server)
remove_in_dir (some dir) folder file tms crc32 force server =
    let path = dir.p ++ file in
    let content = get_or (read_file path 64 server.files) [] in
    let removed = remove_file path dir server.files in
    if is_file_exists path server.files && (if force then true else need_remove content tms crc32)
    then (true, record { dirs = assign folder removed.0 server.dirs; files = removed.1 })
    else (true, server)

-- `locked` says whether one of the 50 calls of `lock_to_write.add(qry, true)` took the lock.
unfoldable pub remove_file_by_tms : Bool → Env → List ℕ → ℕ → ℕ → Bool → Server → Bool × Server
unfolding remove_in_dir folder_and_file in_segment
remove_file_by_tms locked env file_name tms crc32 force server =
    let names = folder_and_file file_name in
    let qry = in_segment env names.1 in
    if locked
    then remove_in_dir (find names.0 server.dirs) names.0 qry tms crc32 force server
    else (false, server)
