-- ===== src/EventDb/Examples.antt =====
-- An event with a header, and a queue of two events.
use rssdisk.Base.{
  ◌≡◌, refl, [], ◌∷◌, ◌++◌, ◌&&◌, some, ◌==◌, if◌then◌else◌, arith, drop, bytes_eq, bytes, nat_eq,
}
use rssdisk.Base.Dict.{find, get_or}
use rssdisk.Bitbase.{numeric_to_chars}
use rssdisk.Server.Text.{stoi}
use rssdisk.EventDb.{
  EventDb, insert, retrieve, split_bar, generate_key, prepare_edb, join_recent, fetch_events,
}
use rssdisk.EventDb.Latest.{retrieve-insert}
use rssdisk.EventDb.Queues.{fetch_events-insert-prepare_edb}

abbrev empty : EventDb
empty = record { event_storage = []; event_queue = [] }

one_bar : split_bar (51 ∷ 124 ∷ 104 ∷ []) ≡ some (51 ∷ [], 104 ∷ [])
unfolding split_bar
one_bar = refl

retrieve-insert_example :
    retrieve
      (51 ∷ 124 ∷ 104 ∷ [])
      (insert 900 (numeric_to_chars 4 3 ++ generate_key (104 ∷ []) (9 ∷ [])) empty).1
    ≡ (if (3 == stoi (51 ∷ []) 0) && bytes_eq (104 ∷ []) (104 ∷ [])
        then record { event_type = 3; payload = 9 ∷ []; dtm = 900; time_to_live = 0 }
        else retrieve (51 ∷ 124 ∷ 104 ∷ []) empty)
retrieve-insert_example =
    retrieve-insert 900 3 (104 ∷ []) (9 ∷ []) empty (omega arith) (omega arith) (omega arith)
      (omega arith) (51 ∷ 124 ∷ 104 ∷ []) (51 ∷ []) (104 ∷ []) one_bar

fetch_events-insert-prepare_edb_example :
    fetch_events 950 (60 ∷ 0 ∷ []) (insert 900 (prepare_edb 800 0 (9 ∷ []) 30) empty).1
    ≡ record {
      event_type = 0;
      payload =
          get_or (join_recent 60 950 (get_or (find 0 empty.event_queue) [])) []
          ++ drop 4 (prepare_edb 800 0 (9 ∷ []) 30);
      dtm = 0;
      time_to_live = 0;
    }
      ∷ []
fetch_events-insert-prepare_edb_example =
    fetch_events-insert-prepare_edb 900 800 0 30 (9 ∷ []) empty refl (omega arith) (omega arith)
      (omega arith) (omega arith) 60 950 (omega arith) (omega arith)
