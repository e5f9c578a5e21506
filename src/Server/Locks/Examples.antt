-- ===== src/Server/Locks/Examples.antt =====
-- Threads that read and write two files, and the readers that wrap the counter.
use rssdisk.Base.{ℕ, ◌+◌, ◌≤◌, ◌<◌, ◌≡◌, refl, List, [], ◌∷◌, bytes, nat_eq, arith}
use rssdisk.Base.Dict.{find, erase, get_or, assign}
use rssdisk.Server.Locks.{
  LockedFiles, acquired, add_read, add_read_found, begin_write, begin_write_found, try_enter,
  try_enter_found, release, increment, leave_file, end_update,
}
use rssdisk.Server.Locks.Holders.{reading, waits, writing, count, reads, writes}
use rssdisk.Server.Locks.System.{
  System, Step, Reachable, starts_read, queues, enters, ends, start, next, idle_system,
}
use rssdisk.Server.Locks.Exclusion.{Reachable-exclusion}
use rssdisk.Server.Locks.Overflow.{readers, begin_write-readers}

abbrev name : List ℕ
name = 97 ∷ 98 ∷ []

abbrev one_reader : System
one_reader = record {
  locks = record { files = (name, 1) ∷ []; pending_update = [] };
  holders = (7, record { file = name; mode = reading }) ∷ [];
}

abbrev reader_and_waiter : System
reader_and_waiter = record {
  locks = record { files = (name, 1) ∷ []; pending_update = (name, 8) ∷ [] };
  holders =
      (8, record { file = name; mode = waits }) ∷ (7, record { file = name; mode = reading }) ∷ [];
}

abbrev waiter : System
waiter = record {
  locks = record { files = []; pending_update = (name, 8) ∷ [] };
  holders = (8, record { file = name; mode = waits }) ∷ [];
}

abbrev writer : System
writer = record {
  locks = record { files = (name, 1) ∷ []; pending_update = (name, 8) ∷ [] };
  holders = (8, record { file = name; mode = writing }) ∷ [];
}

reads_first : Step idle_system one_reader
unfolding add_read add_read_found increment assign find count
reads_first = starts_read 7 name refl (omega arith) refl refl

then_waits : Step one_reader reader_and_waiter
unfolding begin_write begin_write_found assign find
then_waits = queues 8 name refl refl refl

reader_leaves : Step reader_and_waiter waiter
unfolding release leave_file end_update erase find
reader_leaves = ends 7 (record { file = name; mode = reading }) refl (λ e. cc) refl

then_writes : Step waiter writer
unfolding try_enter try_enter_found increment assign find erase
then_writes = enters 8 name refl refl refl

writer-Reachable : Reachable writer
writer-Reachable = next (next (next (next start reads_first) then_waits) reader_leaves) then_writes

Reachable-exclusion_example :
    (count (writes name) writer.holders ≤ 1)
    × (0 < count (writes name) writer.holders → count (reads name) writer.holders ≡ 0)
    × (get_or (find name writer.locks.files) 0
        ≡ count (reads name) writer.holders + count (writes name) writer.holders)
Reachable-exclusion_example = Reachable-exclusion name writer-Reachable

abbrev no_locks : LockedFiles
no_locks = record { files = []; pending_update = [] }

begin_write-readers_example :
    (begin_write 7 name (release 8 name (readers 257 name no_locks))).1 ≡ acquired
unfolding find
begin_write-readers_example = begin_write-readers name 7 8 no_locks refl refl
