-- ===== src/EventDb/Queues.antt =====
-- Events that a client sends to a queue, and what another fetches of it.
use rssdisk.Base.{
  ℕ, ◌+◌, ◌%◌, ◌^◌, ◌<◌, ◌≡◌, refl, List, [], ◌∷◌, ◌++◌, append_assoc, append-nil, true, false,
  some, ltb, leb, lt→ltb, le→leb, ==_iff, length, length-append, take, drop, bytes, nat_eq, arith,
}
use rssdisk.Base.Words.{i32→size, i32→size_pos}
use native.Mathlib.Nat.{mod-eq_of_lt}
use rssdisk.Base.Dict.{find, get_or, find-assign}
use rssdisk.Bitbase.{numeric_to_chars, chars_to_numeric, emplace_value}
use rssdisk.Bitbase.RoundTrip.{length-numeric_to_chars}
use rssdisk.Bitbase.Fields.{read_number, next_number}
use rssdisk.EventDb.{
  EventResult, EventDb, is_stored, enqueue, insert_event, insert, prepare_edb, join_recent,
  is_recent, stored_events, queued_events, joined, distinct_types, fetch_events,
}

-- An event that the client sends for a queue joins the recent ones behind those that came before.
join_recent-append :
    (age now : ℕ) (q : List EventResult) (r : EventResult)
    → is_recent age now r ≡ true
    → join_recent age now (q ++ r ∷ []) ≡ some (get_or (join_recent age now q) [] ++ r.payload)
unfolding join_recent
join_recent-append age now [] r e = rw e (simp append-nil)
join_recent-append age now (s ∷ q) r e =
    rw (join_recent-append age now q r e)
      (ground (arith, append_assoc s.payload (get_or (join_recent age now q) []) r.payload))

is_recent-lt :
    (age later : ℕ) (r : EventResult)
    → later < r.dtm + age
    → age < 2 ^ 31
    → is_recent age later r ≡ true
unfolding is_recent
is_recent-lt age later r soon fits = ground arith

module _ (now time t ttl : ℕ) (val : List ℕ) (db : EventDb) (queue : is_stored t ≡ false)
    (t_fits : t < 2 ^ 32) (ttl_fits : ttl < 2 ^ 32) (some_value : 0 < length val)
    (small : length val < 2 ^ 30) where
  abbrev sent : List ℕ
  sent = prepare_edb time t val ttl

  -- What the client's message holds behind the type.
  abbrev pub queued : List ℕ
  queued = drop 4 (prepare_edb time t val ttl)

  abbrev document : List ℕ
  document = numeric_to_chars 4 ttl ++ (numeric_to_chars 8 time ++ val)

  document_size : length document ≡ 12 + length val
  document_size = simp (length-append, length-numeric_to_chars) (omega arith)

  spread : sent ≡ numeric_to_chars 4 t ++ (numeric_to_chars 4 (length document) ++ document)
  unfolding prepare_edb
  spread =
      let e : length document % 2 ^ 32 ≡ length document =
        mod-eq_of_lt (omega (arith, document_size)) in
      rw e refl

  size : length sent ≡ 20 + length val
  size = rw spread (simp (length-append, length-numeric_to_chars) (omega arith))

  type_read : chars_to_numeric 4 (take 4 sent) ≡ t
  type_read = read_number 4 4 t 0 sent _ spread (omega arith) (omega arith)

  at_size : drop 4 sent ≡ numeric_to_chars 4 (length document) ++ document
  at_size = next_number 4 t 0 4 sent _ spread refl

  size_read : chars_to_numeric 4 (take 4 (drop 4 sent)) ≡ length document
  size_read =
      read_number 4 4 (length document) 4 sent _ at_size (omega arith)
        (omega (arith, document_size))

  at_ttl : drop 8 sent ≡ numeric_to_chars 4 ttl ++ (numeric_to_chars 8 time ++ val)
  at_ttl = next_number 4 (length document) 4 8 sent _ at_size refl

  ttl_read : chars_to_numeric 4 (take 4 (drop 8 sent)) ≡ ttl
  ttl_read = read_number 4 4 ttl 8 sent _ at_ttl (omega arith) (omega arith)

  abbrev event : EventResult
  event = record { event_type = t; payload = queued; dtm = now; time_to_live = ttl }

  taken : (insert_event now sent t (length document) db).1 ≡ enqueue t event db
  unfolding insert_event
  taken =
      let more : ltb 12 (length document) ≡ true = lt→ltb _ _ (omega (arith, document_size)) in
      let pos : ltb (length document) (2 ^ 31) ≡ true = lt→ltb _ _ (omega (arith, document_size)) in
      rw (queue, more, pos, ttl_read) refl

  inserted : (insert now sent db).1 ≡ enqueue t event db
  unfolding insert
  inserted =
      let long : ltb 8 (length sent) ≡ true = lt→ltb _ _ (omega (arith, size)) in
      let e : length document + 8 ≡ 20 + length val = omega (arith, document_size) in
      let m : (20 + length val) % 2 ^ 32 ≡ 20 + length val = mod-eq_of_lt (omega arith) in
      let n : i32→size (20 + length val) ≡ 20 + length val =
        i32→size_pos (20 + length val) (omega arith) in
      let inside : leb (i32→size ((length document + 8) % 2 ^ 32)) (length sent) ≡ true =
        le→leb _ _ (rw (e, m, n) (omega (arith, size))) in
      rw (long, type_read, size_read, inside) taken

  queue_after :
      get_or (find t (enqueue t event db).event_queue) []
      ≡ get_or (find t db.event_queue) [] ++ event ∷ []
  unfolding enqueue
  queue_after = ground (
    arith,
    find-assign t t (get_or (find t db.event_queue) [] ++ event ∷ []) db.event_queue,
    ==_iff t t,
  )

  -- After the client's message of `prepare_edb` is inserted at a time under a type that is
  -- not above 0, with a value that is not empty and has less than 2 ^ 30 bytes, fetching that
  -- type at any time before the age asked for has passed returns one event, whose payload is
  -- that of the events before it that are recent at that time, followed by the message behind
  -- its type. The age is not negative.
  pub fetch_events-insert-prepare_edb :
      (age later : ℕ)
      → later < now + age
      → age < 2 ^ 31
      → fetch_events later (age ∷ t ∷ []) (insert now sent db).1
        ≡ record {
          event_type = t;
          payload = get_or (join_recent age later (get_or (find t db.event_queue) [])) [] ++ queued;
          dtm = 0;
          time_to_live = 0;
        }
          ∷ []
  unfolding fetch_events stored_events queued_events distinct_types emplace_value joined
  fetch_events-insert-prepare_edb age later soon age_fits =
      let recent : is_recent age later event ≡ true = is_recent-lt age later event soon age_fits in
      rw
        (
          inserted,
          queue,
          queue_after,
          join_recent-append age later (get_or (find t db.event_queue) []) event recent,
        )
        refl
