-- ===== src/Server/Accept/Guards.antt =====
-- A request that its server can take passes the guards of `accept_file`.
use rssdisk.Base.{
  ℕ, ◌+◌, ◌-◌, ◌≤◌, ◌<◌, ◌≡◌, refl, sym, ap, ◌∙◌, List, [], ◌∷◌, ◌++◌, append_assoc, Bool, true,
  false, some, ltb, leb, ◌==◌, length, length-append, drop, drop-append_eq, All, bytes, arith, ◌⊎◌,
}
use rssdisk.Base.Dict.{find}
use rssdisk.Server.Text.{stoi}
use rssdisk.Server.WType.{w_type}
use rssdisk.Server.Disk.{Directory}
use rssdisk.Server.Header.{Header, parse_header}
use rssdisk.Server.Message.{Config, Env, Server, folder_and_file, in_segment, is_jdb}
use rssdisk.Server.Header.{Header, parse_header, stable_bytes}
use rssdisk.Server.Header.Parse.{IsNoSpace, message, parse_header-message}
use rssdisk.Server.Accept.{
  write_accepted, kind_of, is_write_enabled, accept_in_dir, accept_header, accept_file,
}
use rssdisk.Server.Accept.Outcome.{IsNoTtlList}

pub kind_of-two : (x y : ℕ) (raw : List ℕ) → kind_of (x ∷ y ∷ raw) ≡ w_type (stoi (x ∷ y ∷ []) 0)
unfolding kind_of
kind_of-two x y raw = let two : leb 2 (length (x ∷ y ∷ raw)) ≡ true = ground arith in rw two refl

-- The body stands behind the last space of the header.
pub message-body :
    (auth name ttl flags body : List ℕ) (n : ℕ)
    → n ≡ length auth + length name + length ttl + length flags + 4
    → drop n (message auth name ttl flags body) ≡ body
message-body auth name ttl flags body n e =
    let front = auth ++ (32 ∷ (name ++ (32 ∷ (ttl ++ (32 ∷ (flags ++ (32 ∷ []))))))) in
    let whole : message auth name ttl flags body ≡ front ++ body = simp append_assoc in
    let size : length front ≡ n = simp length-append (omega arith) in
    ap (drop n) whole ∙ drop-append_eq front body n (sym size)

-- The fields of a request of any kind but those of the JSON database.
pub record IsUpload (conf : Config) (need : Bool) (auth name ttl raw : List ℕ) (x y : ℕ)
    : Type 0 where
  pub auth_plain : All IsNoSpace auth
  pub name_plain : All IsNoSpace name
  pub ttl_plain : All IsNoSpace ttl
  pub kind_plain : IsNoSpace x × IsNoSpace y
  pub raw_size : length raw ≡ stable_bytes (w_type (stoi (x ∷ y ∷ []) 0)) 0
  pub auth_short : length auth ≤ 256
  pub auth_right : (need ≡ false) ⊎ ((conf.auth ≡ []) ⊎ (conf.auth ≡ auth))
  pub name_short : length name ≤ 64
  pub has_file : 0 < length (folder_and_file name).1
  pub document : is_jdb (w_type (stoi (x ∷ y ∷ []) 0)) ≡ false

abbrev pub path_of : Env → Directory → List ℕ → List ℕ
path_of env dir name = dir.p ++ in_segment env (folder_and_file name).1

-- A server that can take it.
pub record IsReady (env : Env) (conf : Config) (server : Server) (dir : Directory)
    (name ttl : List ℕ) : Type 0 where
  pub writes : conf.enable_write ≡ true
  pub reads : conf.enable_read ≡ true
  pub found : find (folder_and_file name).0 server.dirs ≡ some dir
  pub write_enabled : is_write_enabled (path_of env dir name) dir server.files ≡ true
  pub opens : env.io.opens (path_of env dir name) ≡ true
  pub no_list : IsNoTtlList env (stoi ttl 0) (path_of env dir name)

-- The guards let a request through.
accept_header-ready :
    (env : Env) (conf : Config) (server : Server) (dir : Directory) (h : Header)
    (content ttl : List ℕ)
    → IsReady env conf server dir h.file_name ttl
    → h.is_auth_ok ≡ true
    → length h.file_name ≤ 64
    → 0 < length (folder_and_file h.file_name).1
    → accept_header true env conf h content server
      ≡ write_accepted env conf h content
          (folder_and_file h.file_name).0
          (path_of env dir h.file_name)
          dir
          server
unfolding accept_header accept_in_dir
accept_header-ready env conf server dir h content ttl v auth_ok short has_file =
    let fits : ltb 64 (length h.file_name) ≡ false = ground arith in
    let named : (length (folder_and_file h.file_name).1 == 0) ≡ false = ground arith in
    rw (fits, auth_ok, named, v.found, v.write_enabled) refl

accept_file-ready :
    (env : Env) (conf : Config) (need : Bool) (server : Server) (content : List ℕ)
    → conf.enable_write ≡ true
    → 2 < length content
    → accept_file true env conf content need false server
      ≡ accept_header true env conf (parse_header need conf.auth content) content server
unfolding accept_file
accept_file-ready env conf need server content writes long =
    let enough : ltb 2 (length content) ≡ true = ground arith in rw (writes, enough) refl

-- The parsed header of a request.
abbrev pub header_of : List ℕ → List ℕ → List ℕ → List ℕ → Header
header_of auth name ttl flags = record {
  auth = auth;
  file_name = name;
  ttl_days = ttl;
  flags = flags;
  filename_filled = 3;
  start_content_from = length auth + length name + length ttl + length flags + 3;
  is_auth_ok = true;
  max_auth_size = 256 - length auth;
  stable_read_count_bytes = 0;
}

module _ (env : Env) (conf : Config) (need : Bool) (server : Server) (dir : Directory)
    (auth name ttl raw body : List ℕ) (x y b : ℕ) (q : IsUpload conf need auth name ttl raw x y)
    (v : IsReady env conf server dir name ttl) where
  abbrev pub upload_flags : List ℕ
  upload_flags = x ∷ y ∷ raw

  abbrev pub upload : List ℕ
  upload = message auth name ttl upload_flags (b ∷ body)

  parsed : parse_header need conf.auth upload ≡ header_of auth name ttl upload_flags
  parsed =
      let place : length auth + length name + length ttl + length raw + 5
          ≡ length auth + length name + length ttl + length upload_flags + 3 =
        omega arith in
      parse_header-message need conf.auth auth name ttl raw (b ∷ body) x y q.auth_plain q.name_plain
        q.ttl_plain q.kind_plain.0 q.kind_plain.1 q.raw_size q.auth_short q.auth_right
      ∙ rw place refl

  pub accept_file-upload :
      accept_file true env conf upload need false server
      ≡ write_accepted env conf
          (header_of auth name ttl upload_flags)
          upload
          (folder_and_file name).0
          (path_of env dir name)
          dir
          server
  accept_file-upload =
      let long : 2 < length upload = simp length-append (omega arith) in
      accept_file-ready env conf need server upload v.writes long
      ∙ ap (λ k. accept_header true env conf k upload server) parsed
      ∙ accept_header-ready env conf server dir (header_of auth name ttl upload_flags) upload ttl v
          refl q.name_short q.has_file

  pub upload-document : is_jdb (kind_of upload_flags) ≡ false
  upload-document = rw (kind_of-two x y raw) q.document

  pub upload-body :
      drop (length auth + length name + length ttl + length upload_flags + 3 + 1) upload ≡ b ∷ body
  upload-body = message-body auth name ttl upload_flags (b ∷ body) _ (omega arith)
