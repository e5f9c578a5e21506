-- ===== src/Server/Locks/System.antt =====
-- The threads of the server over the lock: a relation of steps, in any interleaving.
use rssdisk.Base.{ℕ, ◌+◌, ◌≤◌, ◌<◌, ◌≡◌, ◌≢◌, List, [], ◌∷◌, none, some, bytes, nat_eq}
use rssdisk.Base.Dict.{find, erase, IsDistinct, get_or}
use rssdisk.Server.Locks.{LockedFiles, acquired, waiting, add_read, begin_write, try_enter, release}
use rssdisk.Server.Locks.Holders.{
  reading, waits, writing, Hold, Holders, count, owner, reads, writes, updates,
}

pub record System : Type 0 where
  pub locks : LockedFiles
  pub holders : Holders

-- A thread holds at most one file, as each handler of the server does. Fewer than 256 threads read one
-- file at once, so that the counter of eight bits does not wrap.
pub data Step (s : System) (s' : System) : Type 0 where
  starts_read :
      (t : ℕ) (f : List ℕ)
      → find t s.holders ≡ none
      → count (reads f) s.holders < 255
      → (add_read f s.locks).1 ≡ acquired
      → s' ≡ record {
        locks = (add_read f s.locks).0;
        holders = (t, record { file = f; mode = reading }) ∷ s.holders;
      }
      → Step s s'
  starts_write :
      (t : ℕ) (f : List ℕ)
      → find t s.holders ≡ none
      → (begin_write t f s.locks).1 ≡ acquired
      → s' ≡ record {
        locks = (begin_write t f s.locks).0;
        holders = (t, record { file = f; mode = writing }) ∷ s.holders;
      }
      → Step s s'
  queues :
      (t : ℕ) (f : List ℕ)
      → find t s.holders ≡ none
      → (begin_write t f s.locks).1 ≡ waiting
      → s' ≡ record {
        locks = (begin_write t f s.locks).0;
        holders = (t, record { file = f; mode = waits }) ∷ s.holders;
      }
      → Step s s'
  enters :
      (t : ℕ) (f : List ℕ)
      → find t s.holders ≡ some (record { file = f; mode = waits })
      → (try_enter f s.locks).1 ≡ acquired
      → s' ≡ record {
        locks = (try_enter f s.locks).0;
        holders = (t, record { file = f; mode = writing }) ∷ erase t s.holders;
      }
      → Step s s'
  ends :
      (t : ℕ) (h : Hold)
      → find t s.holders ≡ some h
      → h.mode ≢ waits
      → s' ≡ record { locks = release t h.file s.locks; holders = erase t s.holders }
      → Step s s'
  -- A refusal, or one more round of waiting.
  idles : s' ≡ s → Step s s'

abbrev pub idle_system : System
idle_system = record { locks = record { files = []; pending_update = [] }; holders = [] }

pub data Reachable : System → Type 0 where
  start : Reachable idle_system
  next : {s s' : System} → Reachable s → Step s s' → Reachable s'

-- The tables agree with the holders, and a writer is alone.
pub record Inv (s : System) : Type 0 where
  pub once : IsDistinct s.holders
  pub counted :
      (f : List ℕ)
      → get_or (find f s.locks.files) 0 ≡ count (reads f) s.holders + count (writes f) s.holders
  pub positive : (f : List ℕ) (c : ℕ) → find f s.locks.files ≡ some c → 0 < c
  pub few : (f : List ℕ) → count (updates f) s.holders ≤ 1
  pub alone : (f : List ℕ) → 0 < count (writes f) s.holders → count (reads f) s.holders ≡ 0
  pub owned : (f : List ℕ) → find f s.locks.pending_update ≡ owner f s.holders
  pub bounded : (f : List ℕ) → count (reads f) s.holders < 256
