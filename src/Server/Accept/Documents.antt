-- ===== src/Server/Accept/Documents.antt =====
-- What `accept_file` does with a request to store a document as a whole.
use rssdisk.Base.{
  ℕ, ◌+◌, ◌-◌, ◌^◌, ◌≤◌, ◌<◌, ◌≡◌, List, [], ◌∷◌, Bool, true, false, none, some, length, drop, All,
  bytes, bytes_eq_iff, arith, ◌⊎◌,
}
use rssdisk.Base.Dict.{find, get_or, find-assign}
use rssdisk.Server.Text.{stoi}
use rssdisk.Server.WType.{w_type, ok}
use rssdisk.Server.Disk.{
  Directory, inc_curr_disk_size, counted_size, charged, get_file_size, add_bytes,
}
use rssdisk.Server.Message.{
  Config, Env, Server, Accepted, folder_and_file, headers_of, is_jdb, is_appendable,
}
use rssdisk.Server.Header.{stable_bytes}
use rssdisk.Server.Header.Parse.{IsNoSpace, message}
use rssdisk.Server.Accept.{write_accepted, kind_of, or_no_headers, accept_file}
use rssdisk.Server.Read.{find_text, jdb_mark}
use rssdisk.Server.Accept.Outcome.{
  stored_bytes, write_accepted-status, write_accepted-files, write_accepted-dirs,
  write_accepted-bytes,
}
use rssdisk.Server.Accept.Guards.{
  IsUpload, IsReady, path_of, header_of, kind_of-two, message-body, accept_file-upload,
}

-- The fields of a request to store a document.
pub record IsRequest (conf : Config) (need : Bool) (auth name ttl raw : List ℕ) (x y : ℕ)
    : Type 0 where
  pub auth_plain : All IsNoSpace auth
  pub name_plain : All IsNoSpace name
  pub ttl_plain : All IsNoSpace ttl
  pub kind_plain : IsNoSpace x × IsNoSpace y
  pub raw_size : length raw ≡ stable_bytes (w_type (stoi (x ∷ y ∷ []) 0)) 0
  pub auth_short : length auth ≤ 256
  pub auth_right : (need ≡ false) ⊎ ((conf.auth ≡ []) ⊎ (conf.auth ≡ auth))
  pub name_short : length name ≤ 64
  pub has_file : 0 < length (folder_and_file name).1
  pub no_query : find_text jdb_mark (folder_and_file name).1 ≡ none
  pub document : is_jdb (w_type (stoi (x ∷ y ∷ []) 0)) ≡ false
  pub not_appended : is_appendable (w_type (stoi (x ∷ y ∷ []) 0)) ≡ false

IsUpload-IsRequest :
    (conf : Config) (need : Bool) (auth name ttl raw : List ℕ) (x y : ℕ)
    → IsRequest conf need auth name ttl raw x y
    → IsUpload conf need auth name ttl raw x y
IsUpload-IsRequest conf need auth name ttl raw x y q = record {
  auth_plain = q.auth_plain;
  name_plain = q.name_plain;
  ttl_plain = q.ttl_plain;
  kind_plain = q.kind_plain;
  raw_size = q.raw_size;
  auth_short = q.auth_short;
  auth_right = q.auth_right;
  name_short = q.name_short;
  has_file = q.has_file;
  document = q.document;
}

module _ (env : Env) (conf : Config) (need : Bool) (server : Server) (dir : Directory)
    (auth name ttl raw body : List ℕ) (x y b : ℕ) (q : IsRequest conf need auth name ttl raw x y)
    (v : IsReady env conf server dir name ttl) where
  abbrev flags : List ℕ
  flags = x ∷ y ∷ raw

  abbrev sent : List ℕ
  sent = message auth name ttl flags (b ∷ body)

  abbrev path : List ℕ
  path = path_of env dir name

  abbrev folder : List ℕ
  folder = (folder_and_file name).0

  abbrev outcome : Accepted
  outcome = accept_file true env conf sent need false server

  through :
      outcome ≡ write_accepted env conf (header_of auth name ttl flags) sent folder path dir server
  through =
      accept_file-upload env conf need server dir auth name ttl raw body x y b
        (IsUpload-IsRequest conf need auth name ttl raw x y q) v

  document : is_jdb (kind_of flags) ≡ false
  document = rw (kind_of-two x y raw) q.document

  whole : is_appendable (kind_of flags) ≡ false
  whole = rw (kind_of-two x y raw) q.not_appended

  at : drop (length auth + length name + length ttl + length flags + 3 + 1) sent ≡ b ∷ body
  at = message-body auth name ttl flags (b ∷ body) _ (omega arith)

  pub accept_file-status : outcome.response.status ≡ ok
  accept_file-status = rw through (
      write_accepted-status env conf (header_of auth name ttl flags) sent folder path dir server b
        body document whole v.opens at v.no_list)

  pub accept_file-files :
      find path outcome.server.files ≡ some (stored_bytes env ttl flags (b ∷ body))
  accept_file-files = rw through (
      write_accepted-files env conf (header_of auth name ttl flags) sent folder path dir server b
        body document whole v.opens at v.no_list)

  pub accept_file-dirs :
      find folder outcome.server.dirs
      ≡ some (inc_curr_disk_size (get_or outcome.response.bytes_written 0) dir)
  accept_file-dirs =
      let r = write_accepted env conf (header_of auth name ttl flags) sent folder path dir server in
      let dir' = inc_curr_disk_size (get_or r.response.bytes_written 0) dir in
      rw
        (
          through,
          write_accepted-dirs env conf (header_of auth name ttl flags) sent folder path dir server b
              body document whole v.opens at v.no_list,
        )
        (ground (arith, find-assign folder folder dir' server.dirs, bytes_eq_iff folder folder))

  pub accept_file-bytes :
      outcome.response.bytes_written
      ≡ some (
          add_bytes 0 (
            charged
              (counted_size
                (b ∷ body)
                (stoi ttl 0)
                (or_no_headers (headers_of (kind_of flags) flags))
                true)
              dir.fs_block_size_b
            + (2 ^ 64 - charged (get_file_size path server.files) dir.fs_block_size_b)))
  accept_file-bytes = rw through (
      write_accepted-bytes env conf (header_of auth name ttl flags) sent folder path dir server b
        body document whole v.opens at v.no_list)
