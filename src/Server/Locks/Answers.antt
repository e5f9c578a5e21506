-- ===== src/Server/Locks/Answers.antt =====
-- When each section of `locked_files` succeeds, and what it does then.
use rssdisk.Base.{ℕ, ◌≡◌, refl, List, Option, none, some, bytes}
use rssdisk.Base.Dict.{find, assign}
use rssdisk.Server.Locks.{
  LockedFiles, acquired, waiting, add_read, add_read_found, begin_write, begin_write_found,
  try_enter, try_enter_found, increment,
}

module _ (f : List ℕ) (l : LockedFiles) where
  read_found :
      (p : Option ℕ)
      → (add_read_found p f l).1 ≡ acquired
      → (p ≡ none) × ((add_read_found p f l).0 ≡ record l { files = increment f l.files })
  unfolding add_read_found
  read_found none e = (refl, refl)
  read_found (some u) e = cc

  -- Reading is allowed exactly while the file has no updater.
  pub add_read-acquired :
      (add_read f l).1 ≡ acquired
      → (find f l.pending_update ≡ none)
        × ((add_read f l).0 ≡ record l { files = increment f l.files })
  unfolding add_read
  add_read-acquired = read_found (find f l.pending_update)

  enter_found :
      (c : Option ℕ)
      → (try_enter_found c f l).1 ≡ acquired
      → (c ≡ none) × ((try_enter_found c f l).0 ≡ record l { files = increment f l.files })
  unfolding try_enter_found
  enter_found none e = (refl, refl)
  enter_found (some c) e = cc

  -- A waiting updater enters once nobody is in the file.
  pub try_enter-acquired :
      (try_enter f l).1 ≡ acquired
      → (find f l.files ≡ none) × ((try_enter f l).0 ≡ record l { files = increment f l.files })
  unfolding try_enter
  try_enter-acquired = enter_found (find f l.files)

module _ (t : ℕ) (f : List ℕ) (l : LockedFiles) where
  write_found :
      (p c : Option ℕ)
      → (begin_write_found p c t f l).1 ≡ acquired
      → (p ≡ none)
        × (c ≡ none)
        × ((begin_write_found p c t f l).0
            ≡ record { files = increment f l.files; pending_update = assign f t l.pending_update })
  unfolding begin_write_found
  write_found none none e = (refl, refl, refl)
  write_found none (some c) e = cc
  write_found (some u) c e = cc

  -- Writing starts at once if nobody updates or holds the file.
  pub begin_write-acquired :
      (begin_write t f l).1 ≡ acquired
      → (find f l.pending_update ≡ none)
        × (find f l.files ≡ none)
        × ((begin_write t f l).0
            ≡ record { files = increment f l.files; pending_update = assign f t l.pending_update })
  unfolding begin_write
  begin_write-acquired = write_found (find f l.pending_update) (find f l.files)

  wait_found :
      (p c : Option ℕ)
      → (begin_write_found p c t f l).1 ≡ waiting
      → (p ≡ none)
        × ((begin_write_found p c t f l).0
            ≡ record l { pending_update = assign f t l.pending_update })
  unfolding begin_write_found
  wait_found none none e = cc
  wait_found none (some c) e = (refl, refl)
  wait_found (some u) c e = cc

  -- While others hold the file, a writer that waits bars new ones.
  pub begin_write-waiting :
      (begin_write t f l).1 ≡ waiting
      → (find f l.pending_update ≡ none)
        × ((begin_write t f l).0 ≡ record l { pending_update = assign f t l.pending_update })
  unfolding begin_write
  begin_write-waiting = wait_found (find f l.pending_update) (find f l.files)
