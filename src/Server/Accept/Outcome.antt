-- ===== src/Server/Accept/Outcome.antt =====
-- What `accept_file` leaves behind once a document is ready to be written.
use rssdisk.Base.{
  ℕ, zero, suc, ◌+◌, ◌-◌, ◌^◌, ◌≡◌, refl, List, [], ◌∷◌, ◌++◌, true, false, some, drop, bytes,
  bytes_eq, bytes_eq_iff, arith,
}
use rssdisk.Base.Dict.{find, assign, get_or, find-assign}
use rssdisk.Server.Text.{decimal, stoi}
use rssdisk.Server.WType.{ok}
use rssdisk.Server.Disk.{
  Files, Io, write_file_to_disk, append_to_file, Directory, inc_curr_disk_size, file_bytes,
  counted_size, charged, get_file_size, add_bytes,
}
use rssdisk.Server.Header.{Header}
use rssdisk.Server.Message.{Config, Env, Server, Accepted, headers_of, is_jdb, is_appendable}
use rssdisk.Server.Content.{nothing_more, prepare, write_prepared, append_ttl, write_ttl}
use rssdisk.Server.Header.{Header}
use rssdisk.Server.Accept.{finish, write_accepted, kind_of, or_no_headers}

append-other :
    (io : Io) (p path line : List ℕ) (files : Files)
    → bytes_eq p path ≡ false
    → find path (append_to_file io p line files).1 ≡ find path files
unfolding append_to_file
append-other io p path line files ne =
    ground (arith, find-assign p path (get_or (find p files) [] ++ line) files)

append_ttl-other :
    (n i : ℕ) (io : Io) (p path line : List ℕ) (files : Files)
    → ((j : ℕ) → bytes_eq (p ++ decimal j) path ≡ false)
    → find path (append_ttl n i io p line files).1 ≡ find path files
unfolding append_ttl
append_ttl-other zero i io p path line files ne = refl
append_ttl-other (suc n) i io p path line files ne = ground (
  arith,
  append-other io (p ++ decimal i) path line files (ne i),
  append_ttl-other n (i + 1) io p path line files ne,
)

-- No list of files to remove stands where this file does.
pub record IsNoTtlList (env : Env) (ttl : ℕ) (path : List ℕ) : Type 0 where
  pub first_list : bytes_eq (env.path_ttl ttl) path ≡ false
  pub other_lists : (j : ℕ) → bytes_eq (env.path_ttl ttl ++ decimal j) path ≡ false

pub write_ttl-other :
    (env : Env) (conf : Config) (ttl : ℕ) (line path : List ℕ) (files : Files)
    → IsNoTtlList env ttl path
    → find path (write_ttl env conf ttl line files).1 ≡ find path files
unfolding write_ttl
write_ttl-other env conf ttl line path files ne = ground (
  arith,
  append-other env.io (env.path_ttl ttl) path (line ++ 10 ∷ []) files ne.first_list,
  append_ttl-other conf.threads 0 env.io (env.path_ttl ttl) path (line ++ 10 ∷ []) files
      ne.other_lists,
)

-- The bytes of the file that a request leaves on the disk.
unfoldable pub stored_bytes : Env → List ℕ → List ℕ → List ℕ → List ℕ
unfolding kind_of
stored_bytes env ttl_days flags body =
    file_bytes env.io body (stoi ttl_days 0) (or_no_headers (headers_of (kind_of flags) flags)) true

module _ (env : Env) (conf : Config) (h : Header) (content folder path : List ℕ) (dir : Directory)
    (server : Server) (b : ℕ) (body : List ℕ) (document : is_jdb (kind_of h.flags) ≡ false)
    (appended : is_appendable (kind_of h.flags) ≡ false) (opens : env.io.opens path ≡ true)
    (body_at : drop (h.start_content_from + 1) content ≡ b ∷ body)
    (no_list : IsNoTtlList env (stoi h.ttl_days 0) path) where
  prepared :
      prepare env (kind_of h.flags) content h.start_content_from path dir server.files
      ≡ nothing_more (b ∷ body) false true dir server.files
  unfolding prepare
  prepared = rw (document, body_at) refl

  abbrev pub result : Accepted
  result = write_accepted env conf h content folder path dir server

  pub write_accepted-status : result.response.status ≡ ok
  unfolding write_accepted write_prepared finish write_file_to_disk
  write_accepted-status = rw (prepared, appended, opens) refl

  pub write_accepted-files :
      find path result.server.files ≡ some (stored_bytes env h.ttl_days h.flags (b ∷ body))
  unfolding write_accepted write_prepared finish write_file_to_disk stored_bytes
  write_accepted-files =
      rw (prepared, appended, opens)
        (ground (
          arith,
          write_ttl-other env conf (stoi h.ttl_days 0) path path
              (assign path (stored_bytes env h.ttl_days h.flags (b ∷ body)) server.files) no_list,
          find-assign path path (stored_bytes env h.ttl_days h.flags (b ∷ body)) server.files,
          bytes_eq_iff path path,
        ))

  pub write_accepted-dirs :
      result.server.dirs
      ≡ assign folder (inc_curr_disk_size (get_or result.response.bytes_written 0) dir) server.dirs
  unfolding write_accepted write_prepared finish write_file_to_disk
  write_accepted-dirs = rw (prepared, appended, opens) refl

  -- What the directory is charged: the new file less the old one.
  pub write_accepted-bytes :
      result.response.bytes_written
      ≡ some (
          add_bytes 0 (
            charged
              (counted_size
                (b ∷ body)
                (stoi h.ttl_days 0)
                (or_no_headers (headers_of (kind_of h.flags) h.flags))
                true)
              dir.fs_block_size_b
            + (2 ^ 64 - charged (get_file_size path server.files) dir.fs_block_size_b)))
  unfolding write_accepted write_prepared finish write_file_to_disk
  write_accepted-bytes = rw (prepared, appended, opens) refl
