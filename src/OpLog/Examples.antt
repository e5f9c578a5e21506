-- ===== src/OpLog/Examples.antt =====
-- A log of two records, one client, and a restart.
use rssdisk.Base.{◌<◌, ◌≡◌, refl, List, [], ◌∷◌, none, some, arith, length, take}
use rssdisk.Bitbase.{chars_to_numeric}
use rssdisk.OpLog.{ssgmt, OpLog, Change, init, init_found, add, clear, poll}
use rssdisk.OpLog.Sync.{length-record_bytes}
use rssdisk.OpLog.Restart.{Run, begins, adds, Stored, Run-Stored, init-Run, poll-cleared}

abbrev doc : Change
doc = record { filename = 97 ∷ 98 ∷ []; tms = 1600; crc32 = 7 }

abbrev photo : Change
photo = record { filename = 99 ∷ []; tms = 1601; crc32 = 9 }

abbrev both : List Change
both = doc ∷ photo ∷ []

abbrev fresh : OpLog
fresh = record { size = 500; content = []; p = 0; h_file = none }

doc-Run : Run (add doc (init 500 none))
doc-Run = adds doc (omega arith) (begins 500 none)

abbrev started : OpLog
started = init 500 none

Run-Stored_example : Stored (add doc (init 500 none))
Run-Stored_example = Run-Stored doc-Run

doc-length : 0 < length (add doc (init 500 none)).content
unfolding add init init_found
doc-length = omega (arith, length-record_bytes 1 doc)

init-Run_example :
    init (add doc (init 500 none)).size (add doc (init 500 none)).h_file ≡ add doc (init 500 none)
init-Run_example = init-Run doc-Run doc-length

poll-cleared_example :
    let l' = add photo (init 0 (clear (add doc (init 0 none))).h_file) in
    (l'.p ≡ 1)
    × (length l'.content ≡ ssgmt)
    × (chars_to_numeric 8 (take 8 l'.content) ≡ 1)
    × (poll 3 1 l' ≡ some [])
unfolding add init init_found
poll-cleared_example =
    poll-cleared 3 1 photo (add doc (init 0 none)) (omega arith) refl
      (omega (arith, length-record_bytes 1 doc)) (omega (arith, length-record_bytes 1 doc))
      (omega arith)
