-- ===== src/CacheDb/Client.antt =====
-- A value that a client wrote by `client::prepare_cdb`, as `retrieve` returns it.
use rssdisk.Base.{
  ℕ, ◌+◌, ◌%◌, ◌^◌, ◌<◌, ◌≡◌, refl, ap, ◌∙◌, true, false, List, [], ◌∷◌, ◌++◌, none, some, leb,
  if◌then◌else◌, length, length-append, arith, bytes, bytes_eq, append-nil,
}
use rssdisk.Bitbase.{numeric_to_chars}
use rssdisk.Bitbase.RoundTrip.{length-numeric_to_chars}
use rssdisk.MapTime.{Clock, seconds}
use rssdisk.MapTime
use rssdisk.MapTime.Access.{get-insert, get-erase}
use rssdisk.CacheDb.Manager.{
  Item, DataStore, Cursor, insert, retrieve, found_item, apply_record, change_entry,
}
use rssdisk.CacheDb.Packets.{
  Packet, IsPacket, packet_bytes, prepare_cdb, insert-packets, apply_packet,
}

-- What `retrieve` answers for an item: its timestamp, its checksum and its content.
abbrev pub answer : Item → List ℕ
answer i = numeric_to_chars 8 i.timestamp ++ (numeric_to_chars 8 i.checksum ++ i.content)

change_entry-full :
    (c : Clock) (key : List ℕ) (i : Item) (ttl : ℕ) (v : List ℕ) (s : DataStore)
    → 0 < length v
    → change_entry c key i ttl v s ≡ MapTime.insert c key i ttl s
unfolding change_entry
change_entry-full c key i ttl [] s h = absurd (omega arith)
change_entry-full c key i ttl (x ∷ v) s h = refl

apply_record-full :
    (c : Clock) (key : List ℕ) (i : Item) (ttl : ℕ) (cur : Cursor)
    → 0 < length key
    → apply_record c key i ttl cur
      ≡ record cur { ok = true; store = change_entry c key i ttl i.content cur.store }
unfolding apply_record
apply_record-full c [] i ttl cur h = absurd (omega arith)
apply_record-full c (b ∷ key) i ttl cur h = refl

retrieve-insert :
    (c d : Clock) (key j : List ℕ) (i : Item) (ttl : ℕ) (s : DataStore)
    → retrieve d j (MapTime.insert c key i ttl s) ≡ (
        if bytes_eq key j
        then if leb d.steady ((c.steady + seconds ttl) % 2 ^ 64) then some (answer i) else none
        else retrieve d j s)
unfolding retrieve found_item
retrieve-insert c d key j i ttl s = ground (arith, get-insert c d key j i ttl s)

retrieve-erase :
    (d : Clock) (key j : List ℕ) (s : DataStore)
    → retrieve d j (MapTime.erase key s) ≡ (if bytes_eq key j then none else retrieve d j s)
unfolding retrieve found_item
retrieve-erase d key j s = ground (arith, get-erase d key j s)

length-packet_bytes :
    (p : Packet) → length (packet_bytes p) ≡ 28 + length p.key + length p.item.content
unfolding packet_bytes
length-packet_bytes p = simp (length-append, length-numeric_to_chars) (omega arith)

one_packet :
    (c : Clock) (p : Packet) (s : DataStore)
    → IsPacket p
    → length p.key + length p.item.content < 2 ^ 30
    → insert 2 c (packet_bytes p) s
      ≡ some (apply_packet c p (record { pos = length (packet_bytes p); ok = false; store = s }))
one_packet c p s ok small = rw (append-nil (packet_bytes p)) at (
    insert-packets c (p ∷ []) 2 s (ok, tt)
      (rw (append-nil (packet_bytes p), length-packet_bytes p) (omega arith)) (omega arith))

module _ (c : Clock) (time : ℕ) (crc32 : List ℕ → ℕ) (compress : List ℕ → List ℕ) (key val : List ℕ)
    (ttl : ℕ) (s : DataStore) (time_fits : time < 2 ^ 64) (crc_fits : crc32 val < 2 ^ 64)
    (ttl_fits : ttl < 2 ^ 32) (key_pos : 0 < length key)
    (small : length key + length (compress val) < 2 ^ 30) where
  abbrev sent : Packet
  sent = record {
    item = record { content = compress val; checksum = crc32 val; timestamp = time };
    ttl = ttl;
    key = key;
  }

  sent-IsPacket : IsPacket sent
  sent-IsPacket = record {
    timestamp_fits = time_fits;
    checksum_fits = crc_fits;
    ttl_fits = ttl_fits;
    key_fits = omega arith;
    content_fits = omega arith;
    key_pos = key_pos;
  }

  -- The server takes the message of `prepare_cdb`, answers true within two rounds, and from
  -- then on returns the compressed value under that key until it expires; every other key is
  -- as before. The compressed value and the key are not empty and have less than 2 ^ 30 bytes
  -- together, and the numbers fit their fields.
  pub retrieve-insert-prepare_cdb :
      (d : Clock) (j : List ℕ)
      → 0 < length (compress val)
      → (cur : Cursor) × (insert 2 c (prepare_cdb time crc32 compress key val ttl) s ≡ some cur)
        × (cur.ok ≡ true)
        × (retrieve d j cur.store ≡ (
            if bytes_eq key j
            then if leb d.steady ((c.steady + seconds ttl) % 2 ^ 64)
              then some (answer sent.item)
              else none
            else retrieve d j s))
  unfolding prepare_cdb
  retrieve-insert-prepare_cdb d j full =
      let start : Cursor = record { pos = length (packet_bytes sent); ok = false; store = s } in
      let done : Cursor = record start {
        ok = true;
        store = MapTime.insert c key sent.item ttl s;
      } in
      (
        done,
        one_packet c sent s sent-IsPacket small
            ∙ ap some (
                apply_record-full c key sent.item ttl start key_pos
                ∙ rw (change_entry-full c key sent.item ttl (compress val) s full)),
        refl,
        retrieve-insert c d key j sent.item ttl s,
      )
