-- ===== src/CacheDb/Examples.antt =====
-- The theorems on the cache database at concrete inputs, and tests.
use mathlib.Core.Option
use rssdisk.Base.{
  ℕ, zero, suc, ◌+◌, ◌-◌, ◌^◌, ◌<◌, ◌≡◌, ◌≢◌, refl, true, false, List, [], ◌∷◌, ◌++◌, some, none,
  arith, length, bytes, take, drop,
}
use rssdisk.Base.Words.{i32→size}
use rssdisk.Base.Dict.{find, assign}
use rssdisk.Bitbase.{numeric_to_chars, chars_to_numeric}
use rssdisk.MapTime
use rssdisk.MapTime.{
  Clock, MapTime, TimedVal, empty, steady_clock_to_time_t, time_t_to_steady_clock, to_time_t,
  from_time_t, serialize, serialize_all,
}
use rssdisk.CacheDb.Manager.{
  DataStore, Cursor, insert, insert_loop, insert_round, apply_record, retrieve, serialize_data,
  serialize_item, item_body, deserialize_data,
}
use rssdisk.CacheDb.Packets.{
  Packet, packet_bytes, packets_bytes, prepare_cdb, insert-packets, apply_packets,
}
use rssdisk.CacheDb.Client.{retrieve-insert-prepare_cdb, answer}
use rssdisk.CacheDb.Ends.{insert_ends, insert_diverges, HasNoNegative}
use rssdisk.CacheDb.Persist.{find-deserialize_data, after_restart}

abbrev noon : Clock
noon = record { steady = 2 ^ 63 + 5_000_000_000; system = 2 ^ 63 + 1_700_000_000_000_000_000 }

abbrev hello : Packet
hello = record {
  item = record { content = 104 ∷ 105 ∷ []; checksum = 77; timestamp = 1_700_000_000 };
  ttl = 60;
  key = 107 ∷ [];
}

abbrev removal : Packet
removal = record {
  item = record { content = []; checksum = 0; timestamp = 1_700_000_001 };
  ttl = 1;
  key = 107 ∷ [];
}

insert-packets_example :
    insert 3 noon (packets_bytes (hello ∷ removal ∷ [])) empty
    ≡ some (
        apply_packets noon (hello ∷ removal ∷ []) (record {
          pos = length (packets_bytes (hello ∷ removal ∷ []));
          ok = false;
          store = empty;
        }))
unfolding packet_bytes numeric_to_chars
insert-packets_example =
    insert-packets noon (hello ∷ removal ∷ []) 3 empty (omega arith) (omega arith) (omega arith)

retrieve-insert-prepare_cdb_example :
    (cur : Cursor) × (insert 2 noon
        (prepare_cdb 5 (λ v. length v) (λ v. v) (107 ∷ []) (104 ∷ []) 60)
        empty
      ≡ some cur)
    × (cur.ok ≡ true)
    × (retrieve noon (107 ∷ []) cur.store
        ≡ some (answer (record { content = 104 ∷ []; checksum = 1; timestamp = 5 })))
retrieve-insert-prepare_cdb_example =
    retrieve-insert-prepare_cdb noon 5 (λ v. length v) (λ v. v) (107 ∷ []) (104 ∷ []) 60 empty
      (omega arith) (omega arith) (omega arith) (omega arith) (omega arith) noon (107 ∷ [])
      (omega arith)

ab_lt : (n : ℕ) → chars_to_numeric 4 (take 4 (drop n (65 ∷ 66 ∷ []))) < 2 ^ 31
unfolding chars_to_numeric
ab_lt zero = omega arith
ab_lt (suc zero) = omega arith
ab_lt (suc (suc zero)) = omega arith
ab_lt (suc (suc (suc n))) = omega arith

text_HasNoNegative : HasNoNegative (65 ∷ 66 ∷ [])
text_HasNoNegative p = ab_lt (i32→size p)

insert_ends_example : insert 3 noon (65 ∷ 66 ∷ []) empty ≢ none
insert_ends_example =
    insert_ends 3 noon (65 ∷ 66 ∷ []) empty text_HasNoNegative (omega arith) (omega arith)

-- 20 zeros, the key size -28, the content size 0, and one more byte.
abbrev poison : List ℕ
poison =
    numeric_to_chars 20 0 ++ (numeric_to_chars 4 (2 ^ 32 - 28) ++ (numeric_to_chars 4 0 ++ 1 ∷ []))

insert_diverges_example : insert 1000 noon poison empty ≡ none
unfolding numeric_to_chars chars_to_numeric
insert_diverges_example = insert_diverges 1000 noon poison empty (omega arith) refl refl

abbrev one_entry : DataStore
one_entry = record {
  map =
      (
        107 ∷ [],
        record {
          val = record { content = 104 ∷ []; checksum = 1; timestamp = 5 };
          valid_until = 2 ^ 63 + 99_000_000_000;
        },
      )
      ∷ [];
  times = [];
}

find-deserialize_data_example :
    (t : DataStore) × (deserialize_data 2 noon (serialize_data noon one_entry) empty ≡ some t)
    × ((k : List ℕ) → find k t.map ≡ after_restart noon noon (find k one_entry.map))
unfolding serialize_data serialize serialize_all serialize_item item_body numeric_to_chars find
find-deserialize_data_example =
    find-deserialize_data noon noon 2 one_entry (omega arith) (omega arith) (refl, tt) (omega arith)
      (omega arith)

-- A value is found again until its ttl of 60 seconds has passed.
hello_found :
    Option.map
      (λ cur. retrieve noon (107 ∷ []) cur.store)
      (insert 2 noon (packet_bytes hello) empty)
    ≡ some (some (answer hello.item))
unfolding retrieve insert insert_loop insert_round apply_record packet_bytes numeric_to_chars
    chars_to_numeric MapTime.insert MapTime.get find assign
hello_found = refl
