-- ===== src/CacheDb/Packets.antt =====
-- rssdisk/rssdisk/extentions/c_manager.cpp, `insert`, on the packets that clients send, which
-- `client::prepare_cdb` of rssdisk/client/rssdisk_pool.cpp writes.
use native.Mathlib.Nat.{mod-eq_of_lt}
use rssdisk.Base.{
  ℕ, zero, suc, ◌+◌, ◌%◌, ◌^◌, ◌≤◌, ◌<◌, ◌≡◌, refl, ap, ◌∙◌, false, List, [], ◌∷◌, ◌++◌, some,
  length, length-append, drop, All, arith, append_assoc, lt→ltb, le→leb, length-drop,
}
use rssdisk.Base.Words.{add_i32, i32→size_pos}
use rssdisk.Bitbase.{numeric_to_chars, radix}
use rssdisk.Bitbase.RoundTrip.{length-numeric_to_chars}
use rssdisk.Bitbase.Fields.{take_field, drop_field, read_number, next_number}
use rssdisk.MapTime.{Clock}
use rssdisk.CacheDb.Manager.{
  Item, DataStore, Cursor, insert, insert_loop, insert_round, apply_record, number_at, bytes_at,
}

pub record Packet : Type 0 where
  pub item : Item
  pub ttl : ℕ
  pub key : List ℕ

-- `client::prepare_cdb` after the compression: tms, crc32, ttl, the two sizes, key and content.
unfoldable pub packet_bytes : Packet → List ℕ
packet_bytes p =
    numeric_to_chars 8 p.item.timestamp
    ++ (numeric_to_chars 8 p.item.checksum
        ++ (numeric_to_chars 4 p.ttl
            ++ (numeric_to_chars 4 (length p.key % 2 ^ 32)
                ++ (numeric_to_chars 4 (length p.item.content % 2 ^ 32)
                    ++ (p.key ++ p.item.content)))))

-- `client::prepare_cdb`; the time, the checksum and the compression are the caller's.
unfoldable pub prepare_cdb : ℕ → (List ℕ → ℕ) → (List ℕ → List ℕ) → List ℕ → List ℕ → ℕ → List ℕ
unfolding packet_bytes
prepare_cdb time crc32 compress key val ttl = packet_bytes (record {
  item = record { content = compress val; checksum = crc32 val; timestamp = time };
  ttl = ttl;
  key = key;
})

abbrev pub packets_bytes : List Packet → List ℕ
packets_bytes [] = []
packets_bytes (p ∷ ps) = packet_bytes p ++ packets_bytes ps

-- The fields fit their widths, and the key is not empty.
pub record IsPacket (p : Packet) : Type 0 where
  pub timestamp_fits : p.item.timestamp < 2 ^ 64
  pub checksum_fits : p.item.checksum < 2 ^ 64
  pub ttl_fits : p.ttl < 2 ^ 32
  pub key_fits : length p.key < 2 ^ 31
  pub content_fits : length p.item.content < 2 ^ 31
  pub key_pos : 0 < length p.key

abbrev pub size_of : Packet → ℕ
size_of p = 28 + length p.key + length p.item.content

-- What one packet means.
abbrev pub apply_packet : Clock → Packet → Cursor → Cursor
apply_packet c p cur = apply_record c p.key p.item p.ttl cur

add_i32-eq : (a b : ℕ) → a + b < 2 ^ 32 → add_i32 a b ≡ a + b
add_i32-eq a b h = mod-eq_of_lt h

number_at-eq :
    (w n pos : ℕ) (d rest : List ℕ)
    → drop pos d ≡ numeric_to_chars w n ++ rest
    → pos < 2 ^ 31
    → n < radix w
    → number_at w d pos ≡ n
number_at-eq w n pos d rest at h fits =
    rw (i32→size_pos pos h) (read_number w w n pos d rest at (omega arith) fits)

bytes_at-eq :
    (pos : ℕ) (d b rest : List ℕ)
    → drop pos d ≡ b ++ rest
    → pos < 2 ^ 31
    → length b < 2 ^ 31
    → bytes_at d pos (length b) ≡ b
bytes_at-eq pos d b rest at h fits =
    rw (i32→size_pos pos h, i32→size_pos (length b) fits)
      (take_field pos (length b) d b rest at refl)

-- What stands from each field of a packet on.
abbrev from_key : Packet → List ℕ → List ℕ
from_key p rest = p.key ++ (p.item.content ++ rest)

abbrev from_content_size : Packet → List ℕ → List ℕ
from_content_size p rest = numeric_to_chars 4 (length p.item.content) ++ from_key p rest

abbrev from_key_size : Packet → List ℕ → List ℕ
from_key_size p rest = numeric_to_chars 4 (length p.key) ++ from_content_size p rest

abbrev from_ttl : Packet → List ℕ → List ℕ
from_ttl p rest = numeric_to_chars 4 p.ttl ++ from_key_size p rest

abbrev from_checksum : Packet → List ℕ → List ℕ
from_checksum p rest = numeric_to_chars 8 p.item.checksum ++ from_ttl p rest

abbrev from_timestamp : Packet → List ℕ → List ℕ
from_timestamp p rest = numeric_to_chars 8 p.item.timestamp ++ from_checksum p rest

packet_bytes-spread :
    (p : Packet) (rest : List ℕ) → IsPacket p → packet_bytes p ++ rest ≡ from_timestamp p rest
unfolding packet_bytes
packet_bytes-spread p rest ok =
    let small_key : length p.key % 2 ^ 32 ≡ length p.key =
      mod-eq_of_lt (omega (arith, ok.key_fits)) in
    let small_content : length p.item.content % 2 ^ 32 ≡ length p.item.content =
      mod-eq_of_lt (omega (arith, ok.content_fits)) in
    rw (small_key, small_content) (simp append_assoc)

length-from_timestamp :
    (p : Packet) (rest : List ℕ) → length (from_timestamp p rest) ≡ size_of p + length rest
length-from_timestamp p rest = simp (length-append, length-numeric_to_chars) (omega arith)

module _ (c : Clock) (d rest : List ℕ) (p : Packet) (ok : IsPacket p) (cur : Cursor)
    (at : drop cur.pos d ≡ from_timestamp p rest) (size : length d < 2 ^ 31)
    (inside : cur.pos ≤ length d) where
  open p use {key, ttl, item.{content, checksum, timestamp}}
  open cur use {pos}

  room : pos + size_of p ≤ length d
  room = omega (arith, length-drop pos d, ap length at, length-from_timestamp p rest)

  at_checksum : drop (pos + 8) d ≡ from_checksum p rest
  at_checksum = next_number 8 timestamp pos _ d _ at refl

  at_ttl : drop (pos + 16) d ≡ from_ttl p rest
  at_ttl = next_number 8 checksum (pos + 8) _ d _ at_checksum (omega arith)

  at_key_size : drop (pos + 20) d ≡ from_key_size p rest
  at_key_size = next_number 4 ttl (pos + 16) _ d _ at_ttl (omega arith)

  at_content_size : drop (pos + 24) d ≡ from_content_size p rest
  at_content_size = next_number 4 (length key) (pos + 20) _ d _ at_key_size (omega arith)

  at_key : drop (pos + 28) d ≡ from_key p rest
  at_key = next_number 4 (length content) (pos + 24) _ d _ at_content_size (omega arith)

  at_content : drop (pos + 28 + length key) d ≡ content ++ rest
  at_content = drop_field (pos + 28) (length key) d key _ at_key refl

  pos_sum : pos + 28 + length key + length content ≡ pos + size_of p
  pos_sum = omega arith

  next_at : drop (pos + size_of p) d ≡ rest
  next_at =
      rw pos_sum at
        (drop_field (pos + 28 + length key) (length content) d content rest at_content refl)

  -- One round takes one packet.
  insert_round-packet :
      insert_round c d cur ≡ apply_packet c p (record cur { pos = pos + size_of p })
  unfolding insert_round
  insert_round-packet = rw (
    add_i32-eq pos 8 (omega (arith, room)),
    add_i32-eq pos 16 (omega (arith, room)),
    add_i32-eq pos 20 (omega (arith, room)),
    add_i32-eq pos 24 (omega (arith, room)),
    add_i32-eq pos 28 (omega (arith, room)),
    number_at-eq 8 timestamp pos d _ at (omega (arith, room)) ok.timestamp_fits,
    number_at-eq 8 checksum (pos + 8) d _ at_checksum (omega (arith, room)) ok.checksum_fits,
    number_at-eq 4 ttl (pos + 16) d _ at_ttl (omega (arith, room)) ok.ttl_fits,
    number_at-eq 4 (length key) (pos + 20) d _ at_key_size (omega (arith, room))
        (omega (arith, ok.key_fits)),
    number_at-eq 4 (length content) (pos + 24) d _ at_content_size (omega (arith, room))
        (omega (arith, ok.content_fits)),
    add_i32-eq (pos + 28) (length key) (omega (arith, room)),
    add_i32-eq (pos + 28 + length key) (length content) (omega (arith, room)),
    i32→size_pos (pos + 28 + length key) (omega (arith, room)),
    i32→size_pos (pos + 28 + length key + length content) (omega (arith, room)),
    le→leb (pos + 28 + length key) (length d) (omega (arith, room)),
    le→leb (pos + 28 + length key + length content) (length d) (omega (arith, room)),
    bytes_at-eq (pos + 28) d key _ at_key (omega (arith, room)) ok.key_fits,
    i32→size_pos (length content) ok.content_fits,
    take_field (pos + 28 + length key) (length content) d content rest at_content refl,
    pos_sum,
  )

-- The meaning of all packets, one after the other.
abbrev pub apply_packets : Clock → List Packet → Cursor → Cursor
apply_packets c [] cur = cur
apply_packets c (p ∷ ps) cur = apply_packets c ps (apply_packet c p cur)

pos-apply_packet : (c : Clock) (p : Packet) (cur : Cursor) → (apply_packet c p cur).pos ≡ cur.pos
unfolding apply_record
pos-apply_packet c p cur = by_key p.key
  where
    by_key : (k : List ℕ) → (apply_record c k p.item p.ttl cur).pos ≡ cur.pos
    by_key [] = refl
    by_key (b ∷ k) = refl

-- The position does not matter to what a record does.
move-apply_record :
    (c : Clock) (key : List ℕ) (i : Item) (ttl m n : ℕ) (cur : Cursor)
    → record (apply_record c key i ttl (record cur { pos = m })) { pos = n }
      ≡ apply_record c key i ttl (record cur { pos = n })
unfolding apply_record
move-apply_record c [] i ttl m n cur = refl
move-apply_record c (b ∷ key) i ttl m n cur = refl

insert_loop-stops :
    (fuel : ℕ) (c : Clock) (d : List ℕ) (cur : Cursor)
    → length d ≡ cur.pos
    → length d < 2 ^ 31
    → insert_loop (suc fuel) c d cur ≡ some cur
unfolding insert_loop
insert_loop-stops fuel c d cur e h = ground arith

insert_loop-round :
    (fuel : ℕ) (c : Clock) (d : List ℕ) (cur : Cursor)
    → cur.pos + 28 < length d
    → length d < 2 ^ 31
    → insert_loop (suc fuel) c d cur ≡ insert_loop fuel c d (insert_round c d cur)
unfolding insert_loop
insert_loop-round fuel c d cur e h = rw (
  add_i32-eq cur.pos 28 (omega arith),
  i32→size_pos (cur.pos + 28) (omega arith),
  lt→ltb (cur.pos + 28) (length d) e,
)

insert_loop-packets :
    (c : Clock) (d : List ℕ) (ps : List Packet) (fuel : ℕ) (cur : Cursor)
    → drop cur.pos d ≡ packets_bytes ps
    → cur.pos ≤ length d
    → length d < 2 ^ 31
    → All IsPacket ps
    → length ps < fuel
    → (insert_loop fuel c d cur ≡ some (apply_packets c ps (record cur { pos = length d })))
insert_loop-packets c d ps zero cur at inside size ok hf = absurd (omega arith)
insert_loop-packets c d [] (suc fuel) cur at inside size ok hf =
    let e : length d ≡ cur.pos = omega (arith, ap length at, length-drop cur.pos d) in
    rw e (insert_loop-stops fuel c d cur e size)
insert_loop-packets c d (p ∷ ps) (suc fuel) cur at inside size (hp, hps) hf =
    let at' : drop cur.pos d ≡ from_timestamp p (packets_bytes ps) =
      at ∙ packet_bytes-spread p (packets_bytes ps) hp in
    let fits : cur.pos + size_of p ≤ length d =
      room c d (packets_bytes ps) p hp cur at' size inside in
    let pos' : ℕ = cur.pos + size_of p in
    let cur' : Cursor = apply_packet c p (record cur { pos = pos' }) in
    let here : cur'.pos ≡ pos' = pos-apply_packet c p (record cur { pos = pos' }) in
    let left : drop (cur.pos + size_of p) d ≡ packets_bytes ps =
      next_at c d (packets_bytes ps) p hp cur at' size inside in
    insert_loop-round fuel c d cur (omega (arith, hp.key_pos)) size
    ∙ ap (insert_loop fuel c d)
        (insert_round-packet c d (packets_bytes ps) p hp cur at' size inside)
    ∙ insert_loop-packets c d ps fuel cur' (rw here left) (rw here fits) size hps (omega arith)
    ∙ ap (λ s. some (apply_packets c ps s))
        (move-apply_record c p.key p.item p.ttl pos' (length d) cur)

-- The packets of a message are applied in their order, and more rounds than packets are enough.
-- Each has a key that is not empty and numbers that fit their fields, and the message has less
-- than 2 ^ 31 bytes.
pub insert-packets :
    (c : Clock) (ps : List Packet) (fuel : ℕ) (s : DataStore)
    → All IsPacket ps
    → length (packets_bytes ps) < 2 ^ 31
    → length ps < fuel
    → insert fuel c (packets_bytes ps) s
      ≡ some
          (apply_packets c ps (record { pos = length (packets_bytes ps); ok = false; store = s }))
unfolding insert
insert-packets c ps fuel s ok size hf =
    insert_loop-packets c (packets_bytes ps) ps fuel (record { pos = 0; ok = false; store = s })
      refl (omega arith) size ok hf
