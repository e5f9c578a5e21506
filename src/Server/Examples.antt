-- ===== src/Server/Examples.antt =====
-- A server with one directory that is sent a file, reads it, and removes it for a later change.
use rssdisk.Base.{
  ◌+◌, ◌-◌, ◌^◌, ◌%◌, ◌<◌, length, ℕ, ◌≡◌, refl, List, [], ◌∷◌, ◌++◌, true, false, none, some,
  if◌then◌else◌, bytes, bytes_eq, arith, inr, replicate, take,
}
use rssdisk.Base.Dict.{find}
use rssdisk.Server.Text.{to_string, decimal, stoi}
use rssdisk.Server.WType.{to_int, w_type, ok}
use rssdisk.Server.Disk.{
  charged, get_file_size, whole_blocks, get_file_size_fs_block_size, file_bytes, concat, Directory,
  is_file_exists,
}
use rssdisk.Server.Header.{parse_header, stable_bytes}
use rssdisk.Server.Header.Parse.{message, parse_header-message}
use rssdisk.Server.Message.{
  headers_of, timed_headers, two_digits, Config, DatabaseContent, Env, Server, folder_and_file,
  in_segment, is_jdb, is_appendable, j_extension_name,
}
use rssdisk.Server.Accept.{kind_of, or_no_headers, accept_file, is_write_enabled}
use rssdisk.Server.Accept.Outcome.{stored_bytes}
use rssdisk.Server.Accept.Guards.{IsUpload, IsReady, path_of}
use rssdisk.Server.Accept.Documents.{IsRequest}
use rssdisk.Server.Accept.Stored.{read_file-accept_file}
use rssdisk.Server.Accept.Charges.{accept_file-charge}
use rssdisk.Server.Accept.Appends.{accept_file-overcharge}
use rssdisk.Server.Read.{Reader, find_text, read_file}
use rssdisk.Server.Remove.{need_remove, remove_file_by_tms}
use rssdisk.Server.Remove.Newest.{
  is_later, updatable_flags, remove_file_by_tms-need_remove, remove_file_by_tms-newest,
}

abbrev nothing_made : DatabaseContent
nothing_made = record { title = []; body = []; version = 1; append = false; error_occurred = false }

abbrev env : Env
env = record {
  io = record { opens = λ p. true; now = replicate 19 50 };
  hash = λ s. 7;
  decrypt = λ s. s;
  create_database_content = λ p d s t f. nothing_made;
  path_ttl = λ n. 116 ∷ [];
}

abbrev conf : Config
conf = record {
  enable_read = true;
  enable_write = true;
  auth = 107 ∷ [];
  aes_key = [];
  threads = 2;
}

abbrev dir : Directory
dir = record {
  enabled = true;
  p = 100 ∷ 47 ∷ [];
  max_size_b = 100000;
  curr_size_b = 0;
  fs_block_size_b = 4096;
}

abbrev empty : Server
empty = record { dirs = ([], dir) ∷ []; files = [] }

abbrev reader : Reader
reader = record { fetch = λ p q f. []; get_hash_of_file = λ p. 1; past_end = λ i. 0 }

abbrev name : List ℕ
name = 97 ∷ 98 ∷ []

abbrev stamps : List ℕ
stamps = replicate 16 32

kind_size : 16 ≡ stable_bytes (w_type (stoi (48 ∷ 49 ∷ []) 0)) 0
unfolding stable_bytes w_type stoi
kind_size = refl

parse_header-message_example :
    parse_header true (107 ∷ []) (message (107 ∷ []) name (51 ∷ []) (48 ∷ 49 ∷ stamps) (9 ∷ []))
    ≡ record {
      auth = 107 ∷ [];
      file_name = name;
      ttl_days = 51 ∷ [];
      flags = 48 ∷ 49 ∷ stamps;
      filename_filled = 3;
      start_content_from = 25;
      is_auth_ok = true;
      max_auth_size = 255;
      stable_read_count_bytes = 0;
    }
parse_header-message_example =
    parse_header-message true (107 ∷ []) (107 ∷ []) name (51 ∷ []) stamps (9 ∷ []) 48 49 (refl, tt)
      (refl, (refl, tt)) (refl, tt) refl refl kind_size (omega arith) (inr (inr refl))

request : IsRequest conf true (107 ∷ []) name (51 ∷ []) stamps 48 49
unfolding folder_and_file find_text is_jdb is_appendable w_type stoi
request = record {
  auth_plain = (refl, tt);
  name_plain = (refl, (refl, tt));
  ttl_plain = (refl, tt);
  kind_plain = (refl, refl);
  raw_size = kind_size;
  auth_short = omega arith;
  auth_right = inr (inr refl);
  name_short = omega arith;
  has_file = omega arith;
  no_query = refl;
  document = refl;
  not_appended = refl;
}

ready : IsReady env conf empty dir name (51 ∷ [])
unfolding folder_and_file find is_write_enabled is_file_exists in_segment decimal stoi
ready = record {
  writes = refl;
  reads = refl;
  found = refl;
  write_enabled = refl;
  opens = refl;
  no_list = record { first_list = refl; other_lists = λ j. refl };
}

read_file-accept_file_example :
    ((accept_file true env conf
        (message (107 ∷ []) name (51 ∷ []) (48 ∷ 49 ∷ stamps) (9 ∷ []))
        true
        false
        empty).response.status
      ≡ ok)
    × (read_file true env conf reader name
          (accept_file true env conf
            (message (107 ∷ []) name (51 ∷ []) (48 ∷ 49 ∷ stamps) (9 ∷ []))
            true
            false
            empty).server
        ≡ (ok, stored_bytes env (51 ∷ []) (48 ∷ 49 ∷ stamps) (9 ∷ [])))
read_file-accept_file_example =
    read_file-accept_file env conf reader true empty dir (107 ∷ []) name (51 ∷ []) stamps [] 48 49 9
      request ready

abbrev path : List ℕ
path = path_of env dir name

abbrev version : List ℕ
version = stored_bytes env (48 ∷ []) (updatable_flags 5 6) (9 ∷ [])

abbrev holding : Server
holding = record { dirs = ([], dir) ∷ []; files = (path, version) ∷ [] }

holding_found : find (folder_and_file name).0 holding.dirs ≡ some dir
unfolding find folder_and_file
holding_found = refl

holding_version : find path holding.files ≡ some version
unfolding find in_segment decimal folder_and_file
holding_version = refl

remove_file_by_tms-need_remove_example :
    (need_remove (take 64 version) 7 0 ≡ false
      → remove_file_by_tms true env name 7 0 false holding ≡ (true, holding))
    × (need_remove (take 64 version) 7 0 ≡ true
        → (j : List ℕ)
        → find j (remove_file_by_tms true env name 7 0 false holding).1.files ≡ (
            if bytes_eq (path ++ j_extension_name) j
            then none
            else (if bytes_eq path j then none else find j holding.files)))
remove_file_by_tms-need_remove_example =
    remove_file_by_tms-need_remove env holding dir name version 7 0 holding_found holding_version

remove_file_by_tms-newest_example :
    find path (remove_file_by_tms true env name 7 0 false holding).1.files
    ≡ (if is_later 7 0 5 6 then none else some version)
remove_file_by_tms-newest_example =
    remove_file_by_tms-newest env holding dir name (48 ∷ []) (9 ∷ []) 7 0 5 6 holding_found
      holding_version (omega arith) (omega arith)

abbrev sent : List ℕ
sent = message (107 ∷ []) name (51 ∷ []) (48 ∷ 49 ∷ stamps) (9 ∷ [])

-- A file that is not there is charged nothing, and this one a block.
nothing_charged : charged (get_file_size path empty.files) 4096 < 2 ^ 31
unfolding charged get_file_size whole_blocks find
nothing_charged = omega arith

one_block :
    whole_blocks (length (stored_bytes env (51 ∷ []) (48 ∷ 49 ∷ stamps) (9 ∷ []))) 4096 < 2 ^ 31
unfolding whole_blocks stored_bytes file_bytes kind_of headers_of timed_headers two_digits decimal
    to_int or_no_headers concat to_string stoi w_type
one_block = omega arith

accept_file-charge_example :
    (dir' : Directory) × (find
        (folder_and_file name).0
        (accept_file true env conf sent true false empty).server.dirs
      ≡ some dir')
    × (dir'.curr_size_b
        ≡ (dir.curr_size_b
            + get_file_size_fs_block_size path 4096
                (accept_file true env conf sent true false empty).server.files
            + (2 ^ 64 - charged (get_file_size path empty.files) 4096))
          % 2 ^ 64)
accept_file-charge_example =
    accept_file-charge env conf true empty dir (107 ∷ []) name (51 ∷ []) stamps [] 48 49 9 request
      ready refl (omega arith) nothing_charged one_block

-- Two bytes appended to the nine bytes of a file.
abbrev growing : Server
growing = record { dirs = ([], dir) ∷ []; files = (path, replicate 9 65) ∷ [] }

append_IsUpload : IsUpload conf true (107 ∷ []) name (48 ∷ []) (replicate 8 32) 49 50
unfolding folder_and_file is_jdb w_type stoi stable_bytes
append_IsUpload = record {
  auth_plain = (refl, tt);
  name_plain = (refl, (refl, tt));
  ttl_plain = (refl, tt);
  kind_plain = (refl, refl);
  raw_size = refl;
  auth_short = omega arith;
  auth_right = inr (inr refl);
  name_short = omega arith;
  has_file = omega arith;
  document = refl;
}

appendable : is_appendable (w_type (stoi (49 ∷ 50 ∷ []) 0)) ≡ true
unfolding is_appendable w_type stoi
appendable = refl

growing-IsReady : IsReady env conf growing dir name (48 ∷ [])
unfolding folder_and_file find is_write_enabled is_file_exists in_segment decimal stoi
growing-IsReady = record {
  writes = refl;
  reads = refl;
  found = refl;
  write_enabled = refl;
  opens = refl;
  no_list = record { first_list = refl; other_lists = λ j. refl };
}

growing_found : find path growing.files ≡ some (replicate 9 65)
unfolding find in_segment decimal folder_and_file
growing_found = refl

accept_file-overcharge_example :
    let r =
      accept_file true env conf
        (message (107 ∷ []) name (48 ∷ []) (49 ∷ 50 ∷ replicate 8 32) (10 ∷ 11 ∷ []))
        true
        false
        growing in
    (dir' : Directory) × (find (folder_and_file name).0 r.server.dirs ≡ some dir')
    × (dir'.curr_size_b ≡ (dir.curr_size_b + 4096) % 2 ^ 64)
    × (find path r.server.files ≡ some (replicate 9 65 ++ 10 ∷ 11 ∷ []))
    × (get_file_size_fs_block_size path 4096 r.server.files
        ≡ get_file_size_fs_block_size path 4096 growing.files)
accept_file-overcharge_example =
    accept_file-overcharge env conf true growing dir (107 ∷ []) name (48 ∷ []) (replicate 8 32)
      (11 ∷ []) (replicate 9 65) 49 50 10 append_IsUpload appendable growing-IsReady growing_found
      (omega arith) (omega arith)
