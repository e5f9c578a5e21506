-- ===== src/EventDb.antt =====
-- rssdisk/rssdisk/extentions/e_manager.cpp, `EDatabaseManager`: the last value of each header of an
-- event, and queues of events. A date is its number of seconds.
pub mod Latest
pub mod Queues
pub mod Examples
use rssdisk.Base.{
  ℕ, zero, suc, ◌+◌, ◌-◌, ◌%◌, ◌^◌, List, [], ◌∷◌, ◌++◌, Bool, true, false, ◌&&◌, not, Option, none,
  some, ltb, leb, ◌==◌, if◌then◌else◌, length, take, drop, keep_if, bytes, nat_eq,
}
use rssdisk.Base.Words.{i32→size}
use rssdisk.Base.Dict.{find, assign, get_or}
use rssdisk.Bitbase.{numeric_to_chars, chars_to_numeric, emplace_value}
use rssdisk.Server.Text.{stoi}

pub record EventResult : Type 0 where
  pub event_type : ℕ
  pub payload : List ℕ
  pub dtm : ℕ
  pub time_to_live : ℕ

abbrev pub no_event : EventResult
no_event = record { event_type = 0; payload = []; dtm = 0; time_to_live = 0 }

pub record EventDb : Type 0 where
  pub event_storage : List (ℕ × List (List ℕ × EventResult))
  pub event_queue : List (ℕ × List EventResult)

-- `r.eventType > 0`, an int32_t.
abbrev pub is_stored : ℕ → Bool
is_stored t = ltb 0 t && ltb t (2 ^ 31)

-- `eventStorage[type][header] = s`.
unfoldable pub store_event : ℕ → List ℕ → EventResult → EventDb → EventDb
store_event t header s db = record db {
  event_storage = assign t (assign header s (get_or (find t db.event_storage) [])) db.event_storage;
}

-- `eventQueue[type].emplace_back(s)`.
unfoldable pub enqueue : ℕ → EventResult → EventDb → EventDb
enqueue t s db = record db {
  event_queue = assign t (get_or (find t db.event_queue) [] ++ s ∷ []) db.event_queue;
}

-- What `insert` does with a message that is long enough, of a type and a size of its header.
unfoldable pub insert_event : ℕ → List ℕ → ℕ → ℕ → EventDb → EventResult × EventDb
unfolding store_event enqueue
insert_event now d t header_bytes db =
    let header = take (i32→size header_bytes) (drop 8 d) in
    let value = drop (i32→size ((header_bytes + 8) % 2 ^ 32)) d in
    let queued = drop 4 d in
    let ttl = chars_to_numeric 4 (take 4 (drop 8 d)) in
    if is_stored t
    then (
      record { event_type = t; payload = header; dtm = 0; time_to_live = 0 },
      store_event t header (record { event_type = t; payload = value; dtm = now; time_to_live = 0 })
          db,
    )
    else (if ltb 12 header_bytes && ltb header_bytes (2 ^ 31)
        then (
          record { event_type = t; payload = queued; dtm = 0; time_to_live = 0 },
          enqueue t (record { event_type = t; payload = queued; dtm = now; time_to_live = ttl }) db,
        )
        else (record { event_type = t; payload = []; dtm = 0; time_to_live = 0 }, db))

unfoldable pub insert : ℕ → List ℕ → EventDb → EventResult × EventDb
unfolding insert_event
insert now d db =
    let t = chars_to_numeric 4 (take 4 d) in
    let header_bytes = chars_to_numeric 4 (take 4 (drop 4 d)) in
    if ltb 8 (length d)
    then (if leb (i32→size ((header_bytes + 8) % 2 ^ 32)) (length d)
        then insert_event now d t header_bytes db
        else (record { event_type = t; payload = []; dtm = 0; time_to_live = 0 }, db))
    else (no_event, db)

-- `r.dtm < now - r.timeToLive`, the time to live signed.
unfoldable pub is_over : ℕ → EventResult → Bool
is_over now r =
    if ltb r.time_to_live (2 ^ 31)
    then ltb (r.dtm + r.time_to_live) now
    else ltb r.dtm (now + (2 ^ 32 - r.time_to_live))

unfoldable pub reset_queues : ℕ → List (ℕ × List EventResult) → List (ℕ × List EventResult)
unfolding is_over
reset_queues now [] = []
reset_queues now ((t, q) ∷ qs) = (t, keep_if (λ r. not (is_over now r)) q) ∷ reset_queues now qs

unfoldable pub reset : ℕ → EventDb → EventDb
unfolding reset_queues
reset now db = record db { event_queue = reset_queues now db.event_queue }

-- `k.find("|")`: what stands before it, and behind it.
unfoldable pub split_bar : List ℕ → Option (List ℕ × List ℕ)
split_bar [] = none
split_bar (c ∷ cs) =
    let rest = split_bar cs in
    if c == 124 then some ([], cs) else elim rest [ none ↦ none | some r ↦ some (c ∷ r.0, r.1) ]

-- The value under a type and a header, or a result with only the type.
unfoldable pub look_up : ℕ → List ℕ → EventDb → EventResult
look_up t header db =
    get_or (find header (get_or (find t db.event_storage) []))
      (record { event_type = t; payload = []; dtm = 0; time_to_live = 0 })

retrieve_split : Option (List ℕ × List ℕ) → EventDb → EventResult
unfolding look_up
retrieve_split none db = look_up 0 [] db
retrieve_split (some (t, header)) db = look_up (stoi t 0) header db

unfoldable pub retrieve : List ℕ → EventDb → EventResult
unfolding retrieve_split split_bar
retrieve k db = retrieve_split (split_bar k) db

-- `r.dtm.secs_to(now) < age`, signed.
unfoldable pub is_recent : ℕ → ℕ → EventResult → Bool
is_recent age now r =
    if ltb age (2 ^ 31) then ltb now (r.dtm + age) else ltb (now + (2 ^ 32 - age)) r.dtm

-- The payloads of the recent events of a queue, one behind another; `none` if there is no such event.
unfoldable pub join_recent : ℕ → ℕ → List EventResult → Option (List ℕ)
unfolding is_recent
join_recent age now [] = none
join_recent age now (r ∷ rs) =
    let rest = join_recent age now rs in
    if is_recent age now r then some (r.payload ++ get_or rest []) else rest

-- `generateKey`.
unfoldable pub generate_key : List ℕ → List ℕ → List ℕ
generate_key k d = numeric_to_chars 4 (length k % 2 ^ 32) ++ (k ++ d)

-- The client's `prepare_edb`, at a time.
unfoldable pub prepare_edb : ℕ → ℕ → List ℕ → ℕ → List ℕ
prepare_edb time t val ttl =
    let document = numeric_to_chars 4 ttl ++ (numeric_to_chars 8 time ++ val) in
    numeric_to_chars 4 t ++ (numeric_to_chars 4 (length document % 2 ^ 32) ++ document)

-- The recent values under a type.
unfoldable pub recent_values : ℕ → ℕ → List (List ℕ × EventResult) → List EventResult
recent_values age now [] = []
recent_values age now ((h, r) ∷ m) =
    let rest = recent_values age now m in if is_recent age now r then r ∷ rest else rest

unfoldable pub stored_events : ℕ → ℕ → List ℕ → EventDb → List EventResult
unfolding recent_values
stored_events age now [] db = []
stored_events age now (i ∷ s) db =
    let rest = stored_events age now s db in
    if is_stored i
    then recent_values age now (get_or (find i db.event_storage) []) ++ rest
    else rest

-- `r0`: one event for each queue that has a recent one.
joined : ℕ → Option (List ℕ) → List EventResult
joined i none = []
joined i (some p) = record { event_type = i; payload = p; dtm = 0; time_to_live = 0 } ∷ []

unfoldable pub queued_events : ℕ → ℕ → List ℕ → EventDb → List EventResult
unfolding joined join_recent
queued_events age now [] db = []
queued_events age now (i ∷ s) db =
    let rest = queued_events age now s db in
    if is_stored i
    then rest
    else joined i (join_recent age now (get_or (find i db.event_queue) [])) ++ rest

-- The set of the types that are asked for. It is an `unordered_set`, and `r0` an `unordered_map`, whose
-- orders are not specified: the ascending one stands for both, so that where several types are asked for
-- the events are those of the code, in one of the orders that it may give them.
unfoldable pub distinct_types : List ℕ → List ℕ → List ℕ
distinct_types [] s = s
distinct_types (i ∷ v) s = distinct_types v (emplace_value i s)

-- `fetchEvents`, once the text is split into numbers: an age, and types.
unfoldable pub fetch_events : ℕ → List ℕ → EventDb → List EventResult
unfolding stored_events queued_events distinct_types
fetch_events now [] db = []
fetch_events now (age ∷ v) db =
    let s = distinct_types v [] in stored_events age now s db ++ queued_events age now s db
