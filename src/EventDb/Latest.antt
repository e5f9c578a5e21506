-- ===== src/EventDb/Latest.antt =====
-- What an inserted event changes.
use rssdisk.Base.{
  ℕ, ◌+◌, ◌-◌, ◌%◌, ◌^◌, ◌<◌, ◌≡◌, refl, List, [], ◌++◌, true, ◌&&◌, some, ltb, leb, lt→ltb, le→leb,
  ◌==◌, ==_iff, if◌then◌else◌, length, length-append, take, drop, bytes, bytes_eq, nat_eq, arith,
}
use rssdisk.Base.Words.{i32→size, i32→size_pos}
use native.Mathlib.Nat.{mod-eq_of_lt}
use rssdisk.Base.Dict.{find, assign, get_or, find-assign}
use rssdisk.Bitbase.{numeric_to_chars, chars_to_numeric}
use rssdisk.Bitbase.RoundTrip.{length-numeric_to_chars}
use rssdisk.Bitbase.Fields.{read_number, next_number, take_field, drop_field}
use rssdisk.Server.Text.{stoi}
use rssdisk.EventDb.{
  EventResult, EventDb, is_stored, store_event, insert_event, insert, split_bar, look_up, retrieve,
  retrieve_split, generate_key,
}

look_up-store_event :
    (t u : ℕ) (h k : List ℕ) (s : EventResult) (db : EventDb)
    → look_up u k (store_event t h s db) ≡ (if (t == u) && bytes_eq h k then s else look_up u k db)
unfolding look_up store_event
look_up-store_event t u h k s db =
    let old = get_or (find t db.event_storage) [] in
    ground
      (arith, find-assign t u (assign h s old) db.event_storage, find-assign h k s old, ==_iff t u)

module _ (now t : ℕ) (header value : List ℕ) (db : EventDb) (t_pos : 0 < t) (t_fits : t < 2 ^ 31)
    (small : length header < 2 ^ 31 - 8) (some_bytes : 0 < length header + length value) where
  abbrev message : List ℕ
  message = numeric_to_chars 4 t ++ generate_key header value

  spread :
      message ≡ numeric_to_chars 4 t ++ (numeric_to_chars 4 (length header) ++ (header ++ value))
  unfolding generate_key
  spread = let e : length header % 2 ^ 32 ≡ length header = mod-eq_of_lt (omega arith) in rw e refl

  size : length message ≡ 8 + length header + length value
  size = rw spread (simp (length-append, length-numeric_to_chars) (omega arith))

  type_read : chars_to_numeric 4 (take 4 message) ≡ t
  type_read = read_number 4 4 t 0 message _ spread (omega arith) (omega arith)

  at_size : drop 4 message ≡ numeric_to_chars 4 (length header) ++ (header ++ value)
  at_size = next_number 4 t 0 4 message _ spread refl

  size_read : chars_to_numeric 4 (take 4 (drop 4 message)) ≡ length header
  size_read = read_number 4 4 (length header) 4 message _ at_size (omega arith) (omega arith)

  at_header : drop 8 message ≡ header ++ value
  at_header = next_number 4 (length header) 4 8 message _ at_size refl

  positive : is_stored t ≡ true
  positive = ground arith

  stored :
      (insert_event now message t (length header) db).1
      ≡ store_event t header
          (record { event_type = t; payload = value; dtm = now; time_to_live = 0 })
          db
  unfolding insert_event
  stored =
      let n : i32→size (length header) ≡ length header =
        i32→size_pos (length header) (omega arith) in
      let m : i32→size ((length header + 8) % 2 ^ 32) ≡ 8 + length header = ground arith in
      rw
        (
          positive,
          n,
          m,
          take_field 8 (length header) message header value at_header refl,
          drop_field 8 (length header) message header value at_header refl,
        )
        refl

  inserted :
      (insert now message db).1
      ≡ store_event t header
          (record { event_type = t; payload = value; dtm = now; time_to_live = 0 })
          db
  unfolding insert
  inserted =
      let long : ltb 8 (length message) ≡ true = lt→ltb _ _ (omega (arith, size)) in
      let m : i32→size ((length header + 8) % 2 ^ 32) ≡ 8 + length header = ground arith in
      let inside : leb (i32→size ((length header + 8) % 2 ^ 32)) (length message) ≡ true =
        le→leb _ _ (rw m (omega (arith, size))) in
      rw (long, type_read, size_read, inside) stored

  -- After an event with a type above 0, a header and a value is inserted by the message that
  -- `generateKey` makes, a query of that type and header returns the value with the date of
  -- the insertion, and every other query returns what it did. The header has less than 2 ^ 31
  -- - 8 bytes, not both are empty, and the query has a bar.
  pub retrieve-insert :
      (k number header' : List ℕ)
      → split_bar k ≡ some (number, header')
      → retrieve k (insert now message db).1 ≡ (
          if (t == stoi number 0) && bytes_eq header header'
          then record { event_type = t; payload = value; dtm = now; time_to_live = 0 }
          else retrieve k db)
  unfolding retrieve retrieve_split
  retrieve-insert k number header' e =
      rw (e, inserted) (look_up-store_event t (stoi number 0) header header' _ db)
