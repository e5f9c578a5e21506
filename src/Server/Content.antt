-- ===== src/Server/Content.antt =====
-- rssdisk/rssdisk/disk_server.cpp, inside `server::accept_file`: what is written to the disk, and where.
-- The documents of the JSON database come from `createDatabaseContent`, a parameter here.
use rssdisk.Base.{
  ℕ, zero, suc, ◌+◌, ◌*◌, ◌/◌, ◌%◌, ◌^◌, List, [], ◌∷◌, ◌++◌, Bool, true, false, ◌&&◌, Option, none,
  some, ltb, ◌==◌, if◌then◌else◌, length, take, drop, bytes,
}
use rssdisk.Bitbase.{chars_to_numeric}
use rssdisk.Server.Text.{decimal}
use rssdisk.Server.WType.{WType}
use rssdisk.Server.Disk.{
  Files, Io, Written, write_file_to_disk, append_to_file, Directory, inc_curr_disk_size,
}
use rssdisk.Server.Message.{Config, DatabaseContent, Env, is_jdb, is_appendable, j_extension_name}

-- What is ready to be written.
pub record Prepared : Type 0 where
  pub to_write : List ℕ
  pub is_append : Bool
  pub ok_jdb_write : Bool
  pub dir : Directory
  pub files : Files
  pub jdb_written : Option ℕ

-- The data file of a database of version 2: appended to, or written anew.
unfoldable pub write_database : Env → DatabaseContent → List ℕ → Directory → Files → Prepared
write_database env db path dir files =
    let data_path = path ++ j_extension_name in
    let appended = append_to_file env.io data_path db.body files in
    let written =
      write_file_to_disk env.io data_path db.body 0 0 dir.fs_block_size_b [] false files in
    let success = (if db.append then appended.0 else written.success) in
    let size = (if db.append then length db.body % 2 ^ 32 else written.size) in
    record {
      to_write = db.title;
      is_append = db.append;
      ok_jdb_write = success;
      dir = if success then inc_curr_disk_size size dir else dir;
      files = if db.append then appended.1 else written.files;
      jdb_written = if success then some size else none;
    }

abbrev pub nothing_more : List ℕ → Bool → Bool → Directory → Files → Prepared
nothing_more to_write is_append ok_jdb_write dir files = record {
  to_write = to_write;
  is_append = is_append;
  ok_jdb_write = ok_jdb_write;
  dir = dir;
  files = files;
  jdb_written = none;
}

unfoldable pub store_database : Env → DatabaseContent → List ℕ → Directory → Files → Prepared
unfolding write_database
store_database env db path dir files =
    if db.error_occurred
    then nothing_more db.title db.append false dir files
    else (if db.version == 1
        then nothing_more (db.title ++ db.body) db.append true dir files
        else (if db.version == 2
            then write_database env db path dir files
            else nothing_more db.title db.append true dir files))

-- The content of a document of the JSON database: the size of its settings, they, and its data.
unfoldable pub prepare_jdb : Env → WType → List ℕ → ℕ → List ℕ → Directory → Files → Prepared
unfolding store_database
prepare_jdb env t content start path dir files =
    let sz = chars_to_numeric 4 (take 4 (drop (start + 1) content)) in
    let sett = take sz (drop (start + 5) content) in
    let document = drop (start + 5 + sz) content in
    if ltb (start + 6) (length content) && ltb (start + 5 + sz) (length content)
    then store_database env (env.create_database_content path document sett t files) path dir files
    else nothing_more [] false true dir files

unfoldable pub prepare : Env → WType → List ℕ → ℕ → List ℕ → Directory → Files → Prepared
unfolding prepare_jdb is_jdb
prepare env t content start path dir files =
    if is_jdb t
    then prepare_jdb env t content start path dir files
    else nothing_more (drop (start + 1) content) false true dir files

-- The blocks that an appended string is charged for.
unfoldable pub appended_bytes : ℕ → ℕ → ℕ
appended_bytes n fs = (if n == 0 then 0 else n / fs + 1) * fs % 2 ^ 32

unfoldable pub write_prepared : Env → WType → ℕ → List (List ℕ) → List ℕ → Bool → Prepared → Written
unfolding appended_bytes is_appendable
write_prepared env t ttl headers path exists prep =
    let fs = prep.dir.fs_block_size_b in
    let appended = append_to_file env.io path prep.to_write prep.files in
    if is_appendable t && exists
    then record {
      success = appended.0;
      size = appended_bytes (length prep.to_write) fs;
      files = appended.1;
    }
    else write_file_to_disk env.io path prep.to_write 0 ttl fs headers true prep.files

-- The line that says which file to remove at the end of its time; if the list does not open, the next
-- of the numbered lists is tried.
unfoldable pub append_ttl : ℕ → ℕ → Io → List ℕ → List ℕ → Files → Bool × Files
append_ttl zero i io path line files = (false, files)
append_ttl (suc left) i io path line files =
    let here = append_to_file io (path ++ decimal i) line files in
    let rest = append_ttl left (i + 1) io path line files in if here.0 then here else rest

unfoldable pub write_ttl : Env → Config → ℕ → List ℕ → Files → Bool × Files
unfolding append_ttl
write_ttl env conf ttl path files =
    let line = path ++ 10 ∷ [] in
    let first = append_to_file env.io (env.path_ttl ttl) line files in
    let others = append_ttl conf.threads 0 env.io (env.path_ttl ttl) line files in
    if first.0 then first else others
