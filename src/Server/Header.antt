-- ===== src/Server/Header.antt =====
-- The header of a message to `server::accept_file`: an authorisation, a file name, its time to live
-- and flags, each ended by a space; 16 or 8 bytes of the flags may be spaces.
pub mod Parse
use rssdisk.Base.{
  ℕ, zero, suc, ◌+◌, ◌-◌, List, [], ◌∷◌, ◌++◌, Bool, true, false, ◌&&◌, not, ltb, leb, ◌==◌,
  if◌then◌else◌, length, bytes_eq,
}
use rssdisk.Server.Text.{stoi}
use rssdisk.Server.WType.{
  WType, insert_only, updatable, insert_only_without_compress, updatable_without_compress, jdb,
  jdb_formed, jdb_data, none_type, edb, ajdb, cdb, cdbm, appendable, unlisted, w_type,
}

-- The variables of the loop.
pub record Header : Type 0 where
  pub auth : List ℕ
  pub file_name : List ℕ
  pub ttl_days : List ℕ
  pub flags : List ℕ
  pub filename_filled : ℕ
  pub start_content_from : ℕ
  pub is_auth_ok : Bool
  pub max_auth_size : ℕ
  pub stable_read_count_bytes : ℕ

abbrev pub no_header : Header
no_header = record {
  auth = [];
  file_name = [];
  ttl_days = [];
  flags = [];
  filename_filled = 0;
  start_content_from = 0;
  is_auth_ok = true;
  max_auth_size = 256;
  stable_read_count_bytes = 0;
}

-- How many bytes follow the two characters of a kind, whatever they are.
unfoldable pub stable_bytes : WType → ℕ → ℕ
stable_bytes updatable n = 16
stable_bytes updatable_without_compress n = 16
stable_bytes jdb n = 16
stable_bytes ajdb n = 16
stable_bytes jdb_formed n = 16
stable_bytes appendable n = 8
stable_bytes t n = n

-- Whether the authorisation, now complete, is the wrong one.
unfoldable pub wrong_auth : Bool → List ℕ → Header → Bool
wrong_auth need_check_auth auth h =
    need_check_auth
    && (h.filename_filled == 0)
    && not (length auth == 0)
    && not (bytes_eq auth h.auth)

-- A character that ends a field; `true` leaves the loop.
unfoldable pub end_field : Bool → List ℕ → ℕ → Header → Header × Bool
unfolding wrong_auth
end_field need_check_auth auth i h =
    if wrong_auth need_check_auth auth h
    then (record h { is_auth_ok = false }, true)
    else (if h.filename_filled == 3
        then (record h { start_content_from = i }, true)
        else (record h { start_content_from = i; filename_filled = h.filename_filled + 1 }, false))

-- One more character of the flags.
unfoldable pub add_flag : ℕ → Header → Header
unfolding stable_bytes
add_flag c h =
    let flags = h.flags ++ c ∷ [] in
    record h {
      flags = flags;
      stable_read_count_bytes =
          if length flags == 2
          then stable_bytes (w_type (stoi flags 0)) h.stable_read_count_bytes
          else h.stable_read_count_bytes;
    }

-- A character of the field that is being read, once the count of the raw bytes is taken down.
unfoldable pub add_to_field : ℕ → Header → Header × Bool
unfolding add_flag
add_to_field c h =
    if h.filename_filled == 0
    then (if h.max_auth_size == 0
        then (record h { is_auth_ok = false }, true)
        else (record h { auth = h.auth ++ c ∷ []; max_auth_size = h.max_auth_size - 1 }, false))
    else (if h.filename_filled == 1
        then (record h { file_name = h.file_name ++ c ∷ [] }, false)
        else (if h.filename_filled == 2
            then (record h { ttl_days = h.ttl_days ++ c ∷ [] }, false)
            else (add_flag c h, false)))

unfoldable pub parse_char : Bool → List ℕ → ℕ → ℕ → Header → Header × Bool
unfolding end_field add_to_field
parse_char need_check_auth auth i c h =
    if (c == 32) && (h.stable_read_count_bytes == 0)
    then end_field need_check_auth auth i h
    else add_to_field c (record h { stable_read_count_bytes = h.stable_read_count_bytes - 1 })

-- The loop from position `i` on.
unfoldable pub parse_from : Bool → List ℕ → ℕ → List ℕ → Header → Header
unfolding parse_char
parse_from need_check_auth auth i [] h = h
parse_from need_check_auth auth i (c ∷ cs) h =
    let r = parse_char need_check_auth auth i c h in
    let rest = parse_from need_check_auth auth (i + 1) cs r.0 in if r.1 then r.0 else rest

unfoldable pub parse_header : Bool → List ℕ → List ℕ → Header
parse_header need_check_auth auth content = parse_from need_check_auth auth 0 content no_header
