-- ===== src/Server/Locks.antt =====
-- rssdisk/rssdisk/disk_server.hpp, `server::locked_files`: who may read and write a file.
-- Each function is one section that holds the mutex. A call of `add` for writing is `begin_write`,
-- and then, while the file is in use, one `try_enter` after each sleep.
pub mod Holders
pub mod System
pub mod Answers
pub mod Exclusion
pub mod Overflow
pub mod Examples
use rssdisk.Base.{
  ℕ, ◌+◌, ◌%◌, Bool, true, false, List, [], ◌∷◌, Option, none, some, ◌==◌, if◌then◌else◌, bytes,
}
use rssdisk.Base.Dict.{find, assign, erase, get_or}

pub record LockedFiles : Type 0 where
  -- How many hold the file, a uint8_t.
  pub files : List (List ℕ × ℕ)
  -- Which thread is updating it, or waits for that.
  pub pending_update : List (List ℕ × ℕ)

pub data Answer : Type 0 where
  refused acquired waiting : Answer

-- `++files[file_name_]`.
unfoldable pub increment : List ℕ → List (List ℕ × ℕ) → List (List ℕ × ℕ)
increment f m = assign f ((get_or (find f m) 0 + 1) % 256) m

add_read_found : Option ℕ → List ℕ → LockedFiles → LockedFiles × Answer
unfolding increment
add_read_found (some t) f l = (l, refused)
add_read_found none f l = (record l { files = increment f l.files }, acquired)

-- `add(file_name_, false)`.
unfoldable pub add_read : List ℕ → LockedFiles → LockedFiles × Answer
unfolding add_read_found
add_read f l = add_read_found (find f l.pending_update) f l

begin_write_found : Option ℕ → Option ℕ → ℕ → List ℕ → LockedFiles → LockedFiles × Answer
unfolding increment
begin_write_found (some t') c t f l = (l, refused)
begin_write_found none (some c) t f l =
    (record l { pending_update = assign f t l.pending_update }, waiting)
begin_write_found none none t f l =
    (record { files = increment f l.files; pending_update = assign f t l.pending_update }, acquired)

-- `add(file_name_, true)` up to the loop.
unfoldable pub begin_write : ℕ → List ℕ → LockedFiles → LockedFiles × Answer
unfolding begin_write_found
begin_write t f l = begin_write_found (find f l.pending_update) (find f l.files) t f l

try_enter_found : Option ℕ → List ℕ → LockedFiles → LockedFiles × Answer
unfolding increment
try_enter_found (some c) f l = (l, waiting)
try_enter_found none f l = (record l { files = increment f l.files }, acquired)

-- One round of the loop that waits for all threads to leave the file.
unfoldable pub try_enter : List ℕ → LockedFiles → LockedFiles × Answer
unfolding try_enter_found
try_enter f l = try_enter_found (find f l.files) f l

end_update : Option ℕ → ℕ → List ℕ → List (List ℕ × ℕ) → List (List ℕ × ℕ)
end_update none t f p = p
end_update (some t') t f p = if t' == t then erase f p else p

-- `--f->second; if (f->second == 0) files.erase(file_name_)`.
leave_file : Option ℕ → List ℕ → List (List ℕ × ℕ) → List (List ℕ × ℕ)
leave_file none f m = m
leave_file (some c) f m = if (c + 255) % 256 == 0 then erase f m else assign f ((c + 255) % 256) m

-- `erase(file_name_)`, called by the thread `t`.
unfoldable pub release : ℕ → List ℕ → LockedFiles → LockedFiles
unfolding end_update leave_file
release t f l = record {
  files = leave_file (find f l.files) f l.files;
  pending_update = end_update (find f l.pending_update) t f l.pending_update;
}
