-- ===== src/Server/Accept/Appends.antt =====
-- What `accept_file` does with bytes that are appended to a file.
use rssdisk.Base.{
  ℕ, ◌+◌, ◌*◌, ◌/◌, ◌%◌, ◌^◌, ◌<◌, ◌≡◌, refl, sym, ap, ◌∙◌, List, [], ◌∷◌, ◌++◌, Bool, true, false,
  some, ltb, ◌==◌, length, length-append, drop, arith, bytes, bytes_eq_iff,
}
use native.Mathlib.Nat.{div-eq_of_lt}
use rssdisk.Base.Dict.{find, assign, get_or, find-assign}
use rssdisk.Server.Text.{stoi}
use rssdisk.Server.WType.{w_type}
use rssdisk.Server.Disk.{
  Files, Directory, inc_curr_disk_size, append_to_file, whole_blocks, get_file_size,
  get_file_size_fs_block_size, is_file_exists,
}
use rssdisk.Server.Header.{Header}
use rssdisk.Server.Header.Parse.{message}
use rssdisk.Server.Message.{Config, Env, Server, Accepted, folder_and_file, is_jdb, is_appendable}
use rssdisk.Server.Content.{nothing_more, prepare, write_prepared, appended_bytes}
use rssdisk.Server.Accept.{accept_file, finish, write_accepted, kind_of}
use rssdisk.Server.Accept.Outcome.{IsNoTtlList, write_ttl-other}
use rssdisk.Server.Accept.Guards.{
  IsUpload, IsReady, path_of, header_of, kind_of-two, accept_file-upload, upload-document,
  upload-body,
}

module _ (env : Env) (conf : Config) (h : Header) (content folder path : List ℕ) (dir : Directory)
    (server : Server) (c : List ℕ) (b : ℕ) (body : List ℕ)
    (document : is_jdb (kind_of h.flags) ≡ false)
    (appendable : is_appendable (kind_of h.flags) ≡ true) (opens : env.io.opens path ≡ true)
    (body_at : drop (h.start_content_from + 1) content ≡ b ∷ body)
    (no_list : IsNoTtlList env (stoi h.ttl_days 0) path)
    (there : find path server.files ≡ some c) where
  prepared :
      prepare env (kind_of h.flags) content h.start_content_from path dir server.files
      ≡ nothing_more (b ∷ body) false true dir server.files
  unfolding prepare
  prepared = rw (document, body_at) refl

  exists : is_file_exists path server.files ≡ true
  unfolding is_file_exists
  exists = rw (is_file_exists, there) refl

  abbrev result : Accepted
  result = write_accepted env conf h content folder path dir server

  write_accepted-dirs :
      result.server.dirs
      ≡ assign folder
          (inc_curr_disk_size (appended_bytes (length (b ∷ body)) dir.fs_block_size_b) dir)
          server.dirs
  unfolding write_accepted write_prepared finish append_to_file
  write_accepted-dirs = rw (prepared, appendable, exists, opens) refl

  write_accepted-files : find path result.server.files ≡ some (c ++ b ∷ body)
  unfolding write_accepted write_prepared finish append_to_file
  write_accepted-files =
      rw (prepared, appendable, exists, opens, there, get_or)
        (ground (
          arith,
          write_ttl-other env conf (stoi h.ttl_days 0) path path
              (assign path (c ++ b ∷ body) server.files) no_list,
          find-assign path path (c ++ b ∷ body) server.files,
          bytes_eq_iff path path,
        ))

one_more_block :
    (dir : Directory) (n : ℕ)
    → 0 < n
    → n < dir.fs_block_size_b
    → dir.fs_block_size_b < 2 ^ 31
    → (inc_curr_disk_size (appended_bytes n dir.fs_block_size_b) dir).curr_size_b
      ≡ (dir.curr_size_b + dir.fs_block_size_b) % 2 ^ 64
unfolding inc_curr_disk_size appended_bytes
one_more_block dir n some_bytes room small =
    let z : (n == 0) ≡ false = ground arith in
    let one : n / dir.fs_block_size_b ≡ 0 = div-eq_of_lt room in
    let e : (0 + 1) * dir.fs_block_size_b % 2 ^ 32 ≡ dir.fs_block_size_b = omega (arith, small) in
    let t : ltb dir.fs_block_size_b (2 ^ 31) ≡ true = ground (arith, small) in
    rw (z, one, e, t) refl

same_blocks : (s n fs : ℕ) → s + n < fs → whole_blocks (s + n) fs ≡ whole_blocks s fs
unfolding whole_blocks
same_blocks s n fs room =
    let before : s / fs ≡ 0 = div-eq_of_lt (omega arith) in
    let after : (s + n) / fs ≡ 0 = div-eq_of_lt room in rw (before, after) refl

blocks_of :
    (path c : List ℕ) (files : Files) (fs : ℕ)
    → find path files ≡ some c
    → get_file_size_fs_block_size path fs files ≡ whole_blocks (length c) fs
unfolding get_file_size_fs_block_size get_file_size
blocks_of path c files fs there = rw (get_file_size_fs_block_size, get_file_size, there) refl

-- A request to append some bytes to a file that is there, at a server that can write there,
-- where the file with the bytes still fits its first block: afterwards the bytes stand behind
-- those of the file, which has as many blocks as before, and yet the directory's size has grown
-- by a block, modulo 2 ^ 64. A block is smaller than 2 ^ 31, and the lists of files to remove
-- stand at other paths.
pub accept_file-overcharge :
    (env : Env) (conf : Config) (need : Bool) (server : Server) (dir : Directory)
    (auth name ttl raw body c : List ℕ) (x y b : ℕ)
    → IsUpload conf need auth name ttl raw x y
    → is_appendable (w_type (stoi (x ∷ y ∷ []) 0)) ≡ true
    → IsReady env conf server dir name ttl
    → find (path_of env dir name) server.files ≡ some c
    → length c + length (b ∷ body) < dir.fs_block_size_b
    → dir.fs_block_size_b < 2 ^ 31
    → let r =
        accept_file true env conf
          (message auth name ttl (x ∷ y ∷ raw) (b ∷ body))
          need
          false
          server in
      (dir' : Directory) × (find (folder_and_file name).0 r.server.dirs ≡ some dir')
      × (dir'.curr_size_b ≡ (dir.curr_size_b + dir.fs_block_size_b) % 2 ^ 64)
      × (find (path_of env dir name) r.server.files ≡ some (c ++ b ∷ body))
      × (get_file_size_fs_block_size (path_of env dir name) dir.fs_block_size_b r.server.files
          ≡ get_file_size_fs_block_size (path_of env dir name) dir.fs_block_size_b server.files)
accept_file-overcharge env conf need server dir auth name ttl raw body c x y b q appended v there
      room small =
    let flags = x ∷ y ∷ raw in
    let fs = dir.fs_block_size_b in
    let path = path_of env dir name in
    let folder = (folder_and_file name).0 in
    let sent = message auth name ttl flags (b ∷ body) in
    let h = header_of auth name ttl flags in
    let doc = upload-document env conf need server dir auth name ttl raw body x y b q v in
    let app : is_appendable (kind_of flags) ≡ true = rw (kind_of-two x y raw) appended in
    let at = upload-body env conf need server dir auth name ttl raw body x y b q v in
    let dir' = inc_curr_disk_size (appended_bytes (length (b ∷ body)) dir.fs_block_size_b) dir in
    let dirs =
      write_accepted-dirs env conf h sent folder path dir server c b body doc app v.opens at
        v.no_list there in
    let files =
      write_accepted-files env conf h sent folder path dir server c b body doc app v.opens at
        v.no_list there in
    rw (accept_file-upload env conf need server dir auth name ttl raw body x y b q v) (
      dir',
      ap (find folder) dirs
          ∙ ground (arith, find-assign folder folder dir' server.dirs, bytes_eq_iff folder folder),
      one_more_block dir (length (b ∷ body)) (omega arith) (omega (arith, room)) small,
      files,
      blocks_of path (c ++ b ∷ body) _ fs files
          ∙ ap (λ k. whole_blocks k fs) (length-append c (b ∷ body))
          ∙ same_blocks (length c) (length (b ∷ body)) fs room
          ∙ sym (blocks_of path c server.files fs there),
    )
