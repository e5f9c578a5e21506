-- ===== src/Server/Remove/Newest.antt =====
-- Of two versions of a file the later one stays.
use rssdisk.Base.{
  ℕ, zero, suc, ◌+◌, ◌≤◌, ◌<◌, ◌≡◌, refl, sym, ap, ◌∙◌, List, [], ◌∷◌, ◌++◌, append_assoc, Bool,
  true, false, ◌&&◌, none, some, leb, ◌==◌, if◌then◌else◌, length, length-append, take, drop,
  drop-append_eq, bytes, bytes_eq, bytes_eq_iff, Option-cases, arith, ==_iff, inl, inr, Bool-cases,
  le→leb, length-take, take-append_eq, take_all,
}
use rssdisk.Base.Dict.{find, erase, find-erase}
use rssdisk.Server.Text.{to_string, decimal, stoi}
use rssdisk.Server.WType.{updatable, w_type, to_int}
use rssdisk.Server.Disk.{
  Files, is_file_exists, Directory, concat, read_file as read_disk, file_bytes,
}
use rssdisk.Server.Message.{
  Env, Server, folder_and_file, two_digits, timed_headers, headers_of, j_extension_name,
}
use rssdisk.Server.Accept.{or_no_headers}
use rssdisk.Bitbase.{radix, numeric_to_chars, chars_to_numeric}
use rssdisk.Base.Words.{ltb_i64}
use rssdisk.Bitbase.RoundTrip.{length-numeric_to_chars}
use rssdisk.Bitbase.Fields.{read_number, next_number}
use rssdisk.Server.Accept.Outcome.{stored_bytes}
use rssdisk.Server.Accept.Guards.{path_of, kind_of-two}
use rssdisk.Server.Remove.{
  is_older, gives_way, need_remove, give_back, remove_data, remove_file, remove_in_dir,
  remove_file_by_tms,
}

remove_data-files :
    (data_path : List ℕ) (dir : Directory) (files : Files) (j : List ℕ)
    → find j (remove_data data_path dir files).1
      ≡ (if bytes_eq data_path j then none else find j files)
unfolding remove_data is_file_exists
remove_data-files data_path dir files j = elim (Option-cases (find data_path files)) [
  | inl e ↦ rw (is_file_exists, e) (ground (arith, bytes_eq_iff data_path j))
  | inr (c, e) ↦ rw (is_file_exists, e) (ground (arith, find-erase data_path j files))
]

remove_file-files :
    (path : List ℕ) (dir : Directory) (files : Files) (j : List ℕ)
    → find j (remove_file path dir files).1 ≡ (
        if bytes_eq (path ++ j_extension_name) j
        then none
        else (if bytes_eq path j then none else find j files))
unfolding remove_file
remove_file-files path dir files j =
    rw
      (
        remove_data-files (path ++ j_extension_name) (give_back path dir files) (erase path files)
            j,
        find-erase path j files,
      )
      refl

module _ (env : Env) (server : Server) (dir : Directory) (name c : List ℕ) (tms crc32 : ℕ)
    (found : find (folder_and_file name).0 server.dirs ≡ some dir)
    (there : find (path_of env dir name) server.files ≡ some c) where
  abbrev removed : Bool × Server
  removed = remove_file_by_tms true env name tms crc32 false server

  kept : need_remove (take 64 c) tms crc32 ≡ false → removed ≡ (true, server)
  unfolding remove_file_by_tms remove_in_dir is_file_exists read_disk
  kept e = rw (found, is_file_exists, read_disk, there, e) refl

  gone :
      need_remove (take 64 c) tms crc32 ≡ true
      → removed.1.files ≡ (remove_file (path_of env dir name) dir server.files).1
  unfolding remove_file_by_tms remove_in_dir is_file_exists read_disk
  gone e = rw (found, is_file_exists, read_disk, there, e) refl

  -- Where a file stands at the name, and removal is not forced: if its first 64 bytes need no
  -- removal the server is unchanged, and else exactly the file and its database file are
  -- gone.
  pub remove_file_by_tms-need_remove :
      (need_remove (take 64 c) tms crc32 ≡ false → removed ≡ (true, server))
      × (need_remove (take 64 c) tms crc32 ≡ true
          → (j : List ℕ)
          → find j removed.1.files ≡ (
              if bytes_eq (path_of env dir name ++ j_extension_name) j
              then none
              else (if bytes_eq (path_of env dir name) j then none else find j server.files)))
  remove_file_by_tms-need_remove =
      (kept, λ e j. rw (gone e) (remove_file-files (path_of env dir name) dir server.files j))

-- The first 64 bytes have the whole header.
take-take : (n m : ℕ) (s : List ℕ) → n ≤ m → take n (take m s) ≡ take n s
take-take zero m s h = refl
take-take (suc n) zero s h = absurd (omega arith)
take-take (suc n) (suc m) [] h = refl
take-take (suc n) (suc m) (x ∷ s) h = ap (◌∷◌ x) (take-take n m s (omega arith))

take-drop-take :
    (n k m : ℕ) (s : List ℕ) → k + n ≤ m → take n (drop k (take m s)) ≡ take n (drop k s)
take-drop-take n zero m s h = take-take n m s (omega arith)
take-drop-take n (suc k) zero s h = absurd (omega arith)
take-drop-take n (suc k) (suc m) [] h = refl
take-drop-take n (suc k) (suc m) (x ∷ s) h = take-drop-take n k m s (omega arith)

-- A file whose kind has a time and a checksum.
abbrev pub timed_bytes : ℕ → ℕ → ℕ → ℕ → List ℕ → List ℕ
timed_bytes x y t0 c0 rest = x ∷ y ∷ (numeric_to_chars 8 t0 ++ (numeric_to_chars 8 c0 ++ rest))

module _ (x y t0 c0 : ℕ) (rest : List ℕ) (t_fits : t0 < radix 8) (c_fits : c0 < radix 8) where
  abbrev timed_file : List ℕ
  timed_file = timed_bytes x y t0 c0 rest

  at_crc : drop 10 timed_file ≡ numeric_to_chars 8 c0 ++ rest
  at_crc = next_number 8 t0 2 10 timed_file (numeric_to_chars 8 c0 ++ rest) refl refl

  read_tms : chars_to_numeric 8 (take 8 (drop 2 (take 64 timed_file))) ≡ t0
  read_tms =
      ap (chars_to_numeric 8) (take-drop-take 8 2 64 timed_file (omega arith))
      ∙ read_number 8 8 t0 2 timed_file (numeric_to_chars 8 c0 ++ rest) refl (omega arith) t_fits

  read_crc : chars_to_numeric 8 (take 8 (drop 10 (take 64 timed_file))) ≡ c0
  read_crc =
      ap (chars_to_numeric 8) (take-drop-take 8 10 64 timed_file (omega arith))
      ∙ read_number 8 8 c0 10 timed_file rest at_crc (omega arith) c_fits

  long_enough : leb 18 (length (take 64 timed_file)) ≡ true
  long_enough =
      let size : length timed_file ≡ 18 + length rest =
        simp (length-append, length-numeric_to_chars) (omega arith) in
      le→leb _ _ (omega (arith, length-take 64 timed_file, size))

  is_older_lem :
      (tms crc32 : ℕ)
      → is_older (take 64 timed_file) tms crc32
        ≡ (if ltb_i64 t0 tms then true else (t0 == tms) && ltb_i64 c0 crc32)
  unfolding is_older
  is_older_lem tms crc32 = rw (read_tms, read_crc) refl

  need_remove-timed_file :
      (tms crc32 : ℕ)
      → w_type (stoi (x ∷ y ∷ []) 0) ≡ updatable
      → need_remove (take 64 timed_file) tms crc32
        ≡ (if ltb_i64 t0 tms then true else (t0 == tms) && ltb_i64 c0 crc32)
  unfolding need_remove gives_way
  need_remove-timed_file tms crc32 kind = rw (long_enough, kind) (is_older_lem tms crc32)

-- Whether a change at one time, with its checksum, is later than another.
abbrev pub is_later : ℕ → ℕ → ℕ → ℕ → Bool
is_later tms crc32 t0 c0 = if ltb_i64 t0 tms then true else (t0 == tms) && ltb_i64 c0 crc32

-- The flags of a file of kind "01".
abbrev pub updatable_flags : ℕ → ℕ → List ℕ
updatable_flags t0 c0 = 48 ∷ 49 ∷ (numeric_to_chars 8 t0 ++ numeric_to_chars 8 c0)

kind_01 : w_type (stoi (48 ∷ 49 ∷ []) 0) ≡ updatable
unfolding w_type stoi
kind_01 = refl

headers_01 :
    (t0 c0 : ℕ)
    → headers_of updatable (updatable_flags t0 c0)
      ≡ (48 ∷ 49 ∷ []) ∷ numeric_to_chars 8 t0 ∷ numeric_to_chars 8 c0 ∷ []
unfolding headers_of timed_headers two_digits decimal to_int
headers_01 t0 c0 =
    let a = numeric_to_chars 8 t0 in
    let b = numeric_to_chars 8 c0 in
    let size_a = length-numeric_to_chars 8 t0 in
    let size_b = length-numeric_to_chars 8 c0 in
    let size : (length (updatable_flags t0 c0) == 18) ≡ true =
      (==_iff _ _).1 (omega (arith, length-append a b, size_a, size_b)) in
    let first : take 8 (a ++ b) ≡ a = take-append_eq a b 8 (sym size_a) in
    let second : take 8 (drop 8 (a ++ b)) ≡ b =
      ap (take 8) (drop-append_eq a b 8 (sym size_a)) ∙ take_all b 8 (omega (arith, size_b)) in
    rw (size, first, second) refl

stored_01 :
    (env : Env) (ttl body : List ℕ) (t0 c0 : ℕ)
    → stored_bytes env ttl (updatable_flags t0 c0) body
      ≡ timed_bytes 48 49 t0 c0 (env.io.now ++ (to_string (stoi ttl 0) ++ (32 ∷ body)))
unfolding stored_bytes file_bytes or_no_headers concat
stored_01 env ttl body t0 c0 = rw (kind_of-two 48 49, kind_01, headers_01 t0 c0) (simp append_assoc)

-- A stored file of kind 01 is removed by a change exactly if the change's time is later than
-- the file's, or the times are equal and its checksum is greater, both as signed numbers; else
-- it stays as it is.
pub remove_file_by_tms-newest :
    (env : Env) (server : Server) (dir : Directory) (name ttl body : List ℕ) (tms crc32 t0 c0 : ℕ)
    → find (folder_and_file name).0 server.dirs ≡ some dir
    → find (path_of env dir name) server.files
      ≡ some (stored_bytes env ttl (updatable_flags t0 c0) body)
    → t0 < radix 8
    → c0 < radix 8
    → find (path_of env dir name) (remove_file_by_tms true env name tms crc32 false server).1.files
      ≡ (if is_later tms crc32 t0 c0
          then none
          else some (stored_bytes env ttl (updatable_flags t0 c0) body))
remove_file_by_tms-newest env server dir name ttl body tms crc32 t0 c0 found there t_fits c_fits =
    let rest = env.io.now ++ (to_string (stoi ttl 0) ++ (32 ∷ body)) in
    let c = stored_bytes env ttl (updatable_flags t0 c0) body in
    let lem = remove_file_by_tms-need_remove env server dir name c tms crc32 found there in
    let later : need_remove (take 64 c) tms crc32 ≡ is_later tms crc32 t0 c0 =
      rw (stored_01 env ttl body t0 c0)
        (need_remove-timed_file 48 49 t0 c0 rest t_fits c_fits tms crc32 kind_01) in
    elim (Bool-cases (is_later tms crc32 t0 c0)) [
      | inl e ↦ rw e (
          lem.1 (later ∙ e) (path_of env dir name)
          ∙ ground (arith, bytes_eq_iff (path_of env dir name) (path_of env dir name)))
      | inr e ↦ rw (e, lem.0 (later ∙ e)) there
    ]
