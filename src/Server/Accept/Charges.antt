-- ===== src/Server/Accept/Charges.antt =====
-- What a directory is charged for the files in it.
use rssdisk.Base.{
  ℕ, ◌+◌, ◌-◌, ◌%◌, ◌^◌, ◌<◌, ◌≡◌, refl, List, [], ◌∷◌, ◌++◌, Bool, true, false, some, length,
  length-append, arith, bytes,
}
use rssdisk.Base.Dict.{find, get_or}
use rssdisk.Server.Text.{to_string, stoi}
use rssdisk.Server.Disk.{
  Files, Io, Directory, inc_curr_disk_size, file_bytes, counted_size, header_size, concat, charged,
  whole_blocks, get_file_size, get_file_size_fs_block_size, add_bytes,
}
use rssdisk.Server.Header.Parse.{message}
use rssdisk.Server.Message.{Config, Env, Server, folder_and_file, headers_of}
use rssdisk.Server.Accept.{accept_file, kind_of, or_no_headers}
use rssdisk.Server.Accept.Outcome.{stored_bytes}
use rssdisk.Server.Accept.Guards.{IsReady, path_of}
use rssdisk.Server.Accept.Documents.{
  IsRequest, accept_file-files, accept_file-dirs, accept_file-bytes,
}

length-concat : (hs : List (List ℕ)) → length (concat hs) ≡ header_size hs
unfolding concat header_size
length-concat [] = refl
length-concat (h ∷ hs) = omega (arith, length-append h (concat hs), length-concat hs)

-- The size that is counted is the size of the file, if the date has 19 characters.
counted_size-file_bytes :
    (io : Io) (content : List ℕ) (ttl : ℕ) (hs : List (List ℕ))
    → length io.now ≡ 19
    → counted_size content ttl hs true ≡ length (file_bytes io content ttl hs true)
unfolding counted_size file_bytes
counted_size-file_bytes io content ttl hs date = omega (
  arith,
  date,
  length-concat hs,
  length-append (concat hs) (io.now ++ (to_string ttl ++ (32 ∷ content))),
  length-append io.now (to_string ttl ++ (32 ∷ content)),
  length-append (to_string ttl) (32 ∷ content),
)

charged-blocks : (s fs : ℕ) → 0 < s → 0 < fs → charged s fs ≡ whole_blocks s fs
unfolding charged
charged-blocks s fs h k = ground arith

-- An int32_t that holds a difference of sizes is added to an int64_t without loss.
inc-add_bytes :
    (dir : Directory) (a b : ℕ)
    → a < 2 ^ 31
    → b < 2 ^ 31
    → (inc_curr_disk_size (add_bytes 0 (a + (2 ^ 64 - b))) dir).curr_size_b
      ≡ (dir.curr_size_b + a + (2 ^ 64 - b)) % 2 ^ 64
unfolding inc_curr_disk_size add_bytes
inc-add_bytes dir a b ha hb = ground arith

size_of-found :
    (path c : List ℕ) (fs : ℕ) (files : Files)
    → find path files ≡ some c
    → get_file_size_fs_block_size path fs files ≡ whole_blocks (length c) fs
unfolding get_file_size_fs_block_size get_file_size
size_of-found path c fs files e = rw (get_file_size, e) refl

counted_size-stored_bytes :
    (env : Env) (ttl flags body : List ℕ)
    → length env.io.now ≡ 19
    → counted_size body (stoi ttl 0) (or_no_headers (headers_of (kind_of flags) flags)) true
      ≡ length (stored_bytes env ttl flags body)
unfolding stored_bytes
counted_size-stored_bytes env ttl flags body date =
    counted_size-file_bytes env.io body (stoi ttl 0)
      (or_no_headers (headers_of (kind_of flags) flags)) date

length-stored_bytes :
    (env : Env) (ttl flags body : List ℕ)
    → length env.io.now ≡ 19
    → 0 < length (stored_bytes env ttl flags body)
unfolding counted_size
length-stored_bytes env ttl flags body date =
    omega (arith, counted_size-stored_bytes env ttl flags body date)

-- Where a document is stored, the directory's size changes by the blocks of the new file less
-- what was charged for the file that stood there, modulo 2 ^ 64. The date has 19 characters,
-- the block size is not 0, and both charges are below 2 ^ 31.
pub accept_file-charge :
    (env : Env) (conf : Config) (need : Bool) (server : Server) (dir : Directory)
    (auth name ttl raw body : List ℕ) (x y b : ℕ)
    → IsRequest conf need auth name ttl raw x y
    → IsReady env conf server dir name ttl
    → length env.io.now ≡ 19
    → 0 < dir.fs_block_size_b
    → charged (get_file_size (path_of env dir name) server.files) dir.fs_block_size_b < 2 ^ 31
    → whole_blocks (length (stored_bytes env ttl (x ∷ y ∷ raw) (b ∷ body))) dir.fs_block_size_b
      < 2 ^ 31
    → let r =
        accept_file true env conf
          (message auth name ttl (x ∷ y ∷ raw) (b ∷ body))
          need
          false
          server in
      (dir' : Directory) × (find (folder_and_file name).0 r.server.dirs ≡ some dir')
      × (dir'.curr_size_b
          ≡ (dir.curr_size_b
              + get_file_size_fs_block_size
                  (path_of env dir name)
                  dir.fs_block_size_b
                  r.server.files
              + (2 ^ 64
                  - charged
                      (get_file_size (path_of env dir name) server.files)
                      dir.fs_block_size_b))
            % 2 ^ 64)
accept_file-charge env conf need server dir auth name ttl raw body x y b q v date some_block old
      new =
    let flags = x ∷ y ∷ raw in
    let stored = stored_bytes env ttl flags (b ∷ body) in
    let fs = dir.fs_block_size_b in
    let r = accept_file true env conf (message auth name ttl flags (b ∷ body)) need false server in
    let size = counted_size-stored_bytes env ttl flags (b ∷ body) date in
    let blocks =
      charged-blocks (length stored) fs (length-stored_bytes env ttl flags (b ∷ body) date)
        some_block in
    let before = charged (get_file_size (path_of env dir name) server.files) fs in
    (
      inc_curr_disk_size (get_or r.response.bytes_written 0) dir,
      accept_file-dirs env conf need server dir auth name ttl raw body x y b q v,
      rw
          (
            accept_file-bytes env conf need server dir auth name ttl raw body x y b q v,
            size_of-found (path_of env dir name) stored fs r.server.files
                (accept_file-files env conf need server dir auth name ttl raw body x y b q v),
            size,
            blocks,
          )
          (inc-add_bytes dir (whole_blocks (length stored) fs) before new old),
    )
