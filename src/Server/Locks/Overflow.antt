-- ===== src/Server/Locks/Overflow.antt =====
-- The counter of `locked_files` has eight bits, and wraps.
use rssdisk.Base.{ℕ, zero, suc, ◌+◌, ◌%◌, ◌≡◌, refl, List, none, some, bytes, bytes_eq_iff, arith}
use rssdisk.Base.Dict.{find, get_or, find-assign, find-erase}
use rssdisk.Server.Locks.{
  LockedFiles, acquired, add_read, add_read_found, begin_write, begin_write_found, release,
  increment, leave_file, end_update,
}

-- `n` threads, one after another, start to read a file.
unfoldable pub readers : ℕ → List ℕ → LockedFiles → LockedFiles
unfolding add_read
readers zero f l = l
readers (suc n) f l = (add_read f (readers n f l)).0

read-quiet :
    (f : List ℕ) (l : LockedFiles)
    → find f l.pending_update ≡ none
    → (add_read f l).0 ≡ record l { files = increment f l.files }
unfolding add_read add_read_found
read-quiet f l e = rw (add_read, e) refl

find-increment :
    (f : List ℕ) (m : List (List ℕ × ℕ)) (n : ℕ)
    → get_or (find f m) 0 % 256 ≡ n % 256
    → find f (increment f m) ≡ some ((n + 1) % 256)
unfolding increment
find-increment f m n e =
    ground (arith, find-assign f f ((get_or (find f m) 0 + 1) % 256) m, bytes_eq_iff f f)

-- After `n + 1` threads began to read, the lock's counter is that number modulo 256.
readers_lem :
    (n : ℕ) (f : List ℕ) (l : LockedFiles)
    → find f l.pending_update ≡ none
    → find f l.files ≡ none
    → (find f (readers (suc n) f l).pending_update ≡ none)
      × (find f (readers (suc n) f l).files ≡ some ((n + 1) % 256))
unfolding readers
readers_lem zero f l e e' = rw (read-quiet f l e) (e, find-increment f l.files 0 (rw e' refl))
readers_lem (suc n) f l e e' =
    let h = readers_lem n f l e e' in
    rw (read-quiet f (readers (suc n) f l) h.0)
      (h.0, find-increment f (readers (suc n) f l).files (suc n) (rw h.1 (omega arith)))

-- The last that leaves a quiet file frees it for a writer.
write-after-release :
    (f : List ℕ) (t u : ℕ) (l : LockedFiles)
    → find f l.pending_update ≡ none
    → find f l.files ≡ some 1
    → (begin_write t f (release u f l)).1 ≡ acquired
unfolding release begin_write begin_write_found leave_file end_update
write-after-release f t u l e e' =
    rw (e, e', e, find-erase f f l.files, (bytes_eq_iff f f).1 refl) refl

-- After 257 threads began to read a file that nobody had, and one of them left it, a writer
-- enters at once, though 256 threads still read.
pub begin_write-readers :
    (f : List ℕ) (t u : ℕ) (l : LockedFiles)
    → find f l.pending_update ≡ none
    → find f l.files ≡ none
    → (begin_write t f (release u f (readers 257 f l))).1 ≡ acquired
begin_write-readers f t u l e e' =
    let h = readers_lem 256 f l e e' in write-after-release f t u (readers 257 f l) h.0 h.1
