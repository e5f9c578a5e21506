-- ===== src/Server/Accept/Stored.antt =====
-- A file that was accepted is on the disk, and is read back.
use rssdisk.Base.{
  ℕ, ◌<◌, ◌≡◌, refl, List, [], ◌∷◌, ◌++◌, Bool, true, false, none, some, length, length-append,
  bytes, arith,
}
use rssdisk.Base.Dict.{find, get_or}
use rssdisk.Server.WType.{ok}
use rssdisk.Server.Disk.{
  is_file_exists, Directory, inc_curr_disk_size, read_file as read_disk, file_bytes,
}
use rssdisk.Server.Message.{Config, Env, Server, folder_and_file, in_segment}
use rssdisk.Server.Header.Parse.{message}
use rssdisk.Server.Accept.{accept_file}
use rssdisk.Server.Read.{
  Reader, find_text, jdb_mark, answer_content, read_in_dir, name_and_query, read_file,
}
use rssdisk.Server.Accept.Outcome.{stored_bytes}
use rssdisk.Server.Accept.Guards.{IsReady, path_of}
use rssdisk.Server.Accept.Documents.{
  IsRequest, accept_file-status, accept_file-files, accept_file-dirs,
}

answer_content-some : (s : List ℕ) → 0 < length s → answer_content (some s) ≡ (ok, s)
unfolding answer_content
answer_content-some [] h = absurd (omega arith)
answer_content-some (c ∷ s) h = refl

length-stored_bytes :
    (env : Env) (ttl flags body : List ℕ) → 0 < length (stored_bytes env ttl flags body)
unfolding stored_bytes file_bytes
length-stored_bytes env ttl flags body = simp length-append (omega arith)

no_query-name :
    (name : List ℕ) → find_text jdb_mark name ≡ none → name_and_query name ≡ (name, none)
unfolding name_and_query
no_query-name name e = rw (name_and_query, e) refl

read_in_dir-stored :
    (reader : Reader) (server : Server) (dir : Directory) (qry s : List ℕ)
    → find (dir.p ++ qry) server.files ≡ some s
    → 0 < length s
    → read_in_dir (some dir) reader none qry server ≡ (ok, s)
unfolding read_in_dir read_disk is_file_exists
read_in_dir-stored reader server dir qry s at h =
    rw (is_file_exists, read_disk, at) (answer_content-some s h)

-- What is on the disk is what is read.
read_file-stored :
    (env : Env) (conf : Config) (reader : Reader) (server : Server) (dir : Directory)
    (name s : List ℕ)
    → conf.enable_read ≡ true
    → find (folder_and_file name).0 server.dirs ≡ some dir
    → find_text jdb_mark (folder_and_file name).1 ≡ none
    → find (path_of env dir name) server.files ≡ some s
    → 0 < length s
    → read_file true env conf reader name server ≡ (ok, s)
unfolding read_file
read_file-stored env conf reader server dir name s reads found no_query at h =
    rw (no_query-name (folder_and_file name).1 no_query, reads, found)
      (read_in_dir-stored reader server dir (in_segment env (folder_and_file name).1) s at h)

-- A well-formed message that a client sends to store a document, at a server that can write
-- there, is answered with `ok`, and from then on reading the file by its name answers `ok` with
-- exactly the headers of its kind, the date, the time to live and the body. The document is no
-- part of the JSON database and is not appended to another; the lists of files to remove stand
-- at other paths.
pub read_file-accept_file :
    (env : Env) (conf : Config) (reader : Reader) (need : Bool) (server : Server) (dir : Directory)
    (auth name ttl raw body : List ℕ) (x y b : ℕ)
    → IsRequest conf need auth name ttl raw x y
    → IsReady env conf server dir name ttl
    → let r =
        accept_file true env conf
          (message auth name ttl (x ∷ y ∷ raw) (b ∷ body))
          need
          false
          server in
      (r.response.status ≡ ok)
      × (read_file true env conf reader name r.server
          ≡ (ok, stored_bytes env ttl (x ∷ y ∷ raw) (b ∷ body)))
unfolding inc_curr_disk_size
read_file-accept_file env conf reader need server dir auth name ttl raw body x y b q v =
    let files = accept_file-files env conf need server dir auth name ttl raw body x y b q v in
    let found = accept_file-dirs env conf need server dir auth name ttl raw body x y b q v in
    let r =
      accept_file true env conf (message auth name ttl (x ∷ y ∷ raw) (b ∷ body)) need false
        server in
    (
      accept_file-status env conf need server dir auth name ttl raw body x y b q v,
      read_file-stored env conf reader r.server
          (inc_curr_disk_size (get_or r.response.bytes_written 0) dir) name
          (stored_bytes env ttl (x ∷ y ∷ raw) (b ∷ body)) v.reads found q.no_query files
          (length-stored_bytes env ttl (x ∷ y ∷ raw) (b ∷ body)),
    )
