-- ===== src/CacheDb/Persist.antt =====
-- `serializeData` and `deserializeData`: what a restart keeps.
use native.Mathlib.Nat.{mod-eq_of_lt}
use mathlib.Core.Option
use rssdisk.Base.{
  ℕ, suc, ◌+◌, ◌%◌, ◌^◌, ◌<◌, ◌≡◌, refl, sym, ap, ◌∙◌, Bool, true, false, List, [], ◌∷◌, ◌++◌,
  Option, none, some, ltb, if◌then◌else◌, length, length-append, drop, All, arith, append-nil,
  lt→ltb, le→leb, bytes, bytes_eq, Option-cases, bytes_eq_iff,
}
use rssdisk.Base.Words.{add_size, i32→size_pos}
use rssdisk.Base.Dict.{find, IsDistinct, find-emplace}
use rssdisk.Bitbase.{numeric_to_chars}
use rssdisk.Bitbase.RoundTrip.{length-numeric_to_chars}
use rssdisk.Bitbase.Fields.{take_field, drop_field, read_number, next_number}
use rssdisk.MapTime.{
  Clock, TimedVal, steady_clock_to_time_t, time_t_to_steady_clock, to_time_t, serialize,
  serialize_all, add_item, empty,
}
use rssdisk.MapTime.Blocks.{blocks, add_all, deserialize-blocks}
use rssdisk.CacheDb.Manager.{
  Item, DataStore, item_body, serialize_item, deserialize_item, serialize_data, deserialize_data,
}

abbrev pub Entry : Type 0
Entry = List ℕ × TimedVal Item

-- The entry can be written: its fields fit, and its content is not empty.
pub record IsStorable (it : Entry) : Type 0 where
  pub key_fits : length it.0 < 2 ^ 29
  pub content_fits : length it.1.val.content < 2 ^ 29
  pub content_pos : 0 < length it.1.val.content
  pub timestamp_fits : it.1.val.timestamp < 2 ^ 64
  pub checksum_fits : it.1.val.checksum < 2 ^ 64

-- The expiry after a restart: rounded to a second, and carried over to the new clocks.
abbrev pub new_expiry : Clock → Clock → TimedVal Item → ℕ
new_expiry saved c v = time_t_to_steady_clock c (steady_clock_to_time_t saved v.valid_until)

abbrev pub restored : Clock → Clock → TimedVal Item → Option (TimedVal Item)
restored saved c v =
    if ltb c.steady (new_expiry saved c v)
    then some (record v { valid_until = new_expiry saved c v })
    else none

to_time_t-lt : (p : ℕ) → p < 2 ^ 64 → to_time_t p < 2 ^ 64
unfolding to_time_t
to_time_t-lt p h = ground arith

pub time-lt : (c : Clock) (t : ℕ) → steady_clock_to_time_t c t < 2 ^ 64
unfolding steady_clock_to_time_t
time-lt c t = to_time_t-lt _ (omega arith)

pub add_size-eq : (a b : ℕ) → a + b < 2 ^ 64 → add_size a b ≡ a + b
add_size-eq a b h = mod-eq_of_lt h

abbrev keep_if_true : Bool → Entry → Option Entry
keep_if_true b it = if b then some it else none

map-if :
    (b : Bool) (k : List ℕ) (w : TimedVal Item)
    → keep_if_true b (k, w) ≡ Option.map (λ u. (k, u)) (if b then some w else none)
map-if true k w = refl
map-if false k w = refl

-- What stands from each field of a body on.
abbrev from_size : TimedVal Item → List ℕ
from_size v = numeric_to_chars 4 (length v.val.content) ++ v.val.content

abbrev from_checksum : TimedVal Item → List ℕ
from_checksum v = numeric_to_chars 8 v.val.checksum ++ from_size v

abbrev from_timestamp : TimedVal Item → List ℕ
from_timestamp v = numeric_to_chars 8 v.val.timestamp ++ from_checksum v

abbrev from_time : Clock → TimedVal Item → List ℕ
from_time c v = numeric_to_chars 8 (steady_clock_to_time_t c v.valid_until) ++ from_timestamp v

item_body-spread :
    (c : Clock) (it : Entry)
    → IsStorable it
    → item_body c it ≡ numeric_to_chars 4 (length it.0) ++ (it.0 ++ from_time c it.1)
unfolding item_body
item_body-spread c (k, v) ok =
    let small_key : length k % 2 ^ 32 ≡ length k = mod-eq_of_lt (omega (arith, ok.key_fits)) in
    let small : length v.val.content % 2 ^ 32 ≡ length v.val.content =
      mod-eq_of_lt (omega (arith, ok.content_fits)) in
    rw (small_key, small)

length-item_body :
    (c : Clock) (it : Entry) → length (item_body c it) ≡ 32 + length it.0 + length it.1.val.content
unfolding item_body
length-item_body c it = simp (length-append, length-numeric_to_chars) (omega arith)

module _ (saved c : Clock) (k : List ℕ) (v : TimedVal Item) (ok : IsStorable (k, v)) where
  abbrev d : List ℕ
  d = item_body saved (k, v)

  at_key : drop 4 d ≡ k ++ from_time saved v
  at_key =
      next_number 4 (length k) 0 4 d (k ++ from_time saved v) (item_body-spread saved (k, v) ok)
        refl

  at_time : drop (4 + length k) d ≡ from_time saved v
  at_time = drop_field 4 (length k) d k _ at_key refl

  at_timestamp : drop (4 + length k + 8) d ≡ from_timestamp v
  at_timestamp = next_number 8 (steady_clock_to_time_t saved v.valid_until) _ _ d _ at_time refl

  at_checksum : drop (4 + length k + 16) d ≡ from_checksum v
  at_checksum = next_number 8 v.val.timestamp (4 + length k + 8) _ d _ at_timestamp (omega arith)

  at_size : drop (4 + length k + 24) d ≡ from_size v
  at_size = next_number 8 v.val.checksum (4 + length k + 16) _ d _ at_checksum (omega arith)

  at_content : drop (4 + length k + 28) d ≡ v.val.content
  at_content = next_number 4 (length v.val.content) (4 + length k + 24) _ d _ at_size (omega arith)

  at_content' : drop (4 + length k + 28) d ≡ v.val.content ++ []
  at_content' = at_content ∙ sym (append-nil v.val.content)

  size : length d ≡ 32 + length k + length v.val.content
  size = length-item_body saved (k, v)

  -- A body is read back as its key and item, unless it has expired meanwhile.
  pub deserialize_item-item_body :
      deserialize_item c d ≡ Option.map (λ w. (k, w)) (restored saved c v)
  unfolding deserialize_item
  deserialize_item-item_body =
      let small_key : length k < 2 ^ 29 = ok.key_fits in
      let small : length v.val.content < 2 ^ 29 = ok.content_fits in
      rw
        (
          read_number 4 4 (length k) 0 d _ (item_body-spread saved (k, v) ok) (omega arith)
              (omega arith),
          i32→size_pos (length k) (omega arith),
          add_size-eq 4 (length k) (omega arith),
          read_number 8 8 _ (4 + length k) d _ at_time (omega arith) (time-lt saved v.valid_until),
          read_number 8 8 _ (4 + length k + 8) d _ at_timestamp (omega arith) ok.timestamp_fits,
          read_number 8 8 _ (4 + length k + 16) d _ at_checksum (omega arith) ok.checksum_fits,
          read_number 4 4 _ (4 + length k + 24) d _ at_size (omega arith) (omega arith),
          i32→size_pos (length v.val.content) (omega arith),
          add_size-eq (4 + length k + 28) (length v.val.content) (omega arith),
          take_field (4 + length k + 28) (length v.val.content) d v.val.content [] at_content' refl,
          take_field 4 (length k) d k _ at_key refl,
          lt→ltb 4 (length d) (omega (arith, size)),
          le→leb (4 + length k) (length d) (omega (arith, size)),
          lt→ltb (4 + length k + 28) (length d) (omega (arith, size, ok.content_pos)),
          le→leb (4 + length k + 28 + length v.val.content) (length d) (omega (arith, size)),
        )
        (map-if (ltb c.steady (new_expiry saved c v)) k _)

-- What is restored under a key, from what was saved under it.
abbrev pub after_restart : Clock → Clock → Option (TimedVal Item) → Option (TimedVal Item)
after_restart saved c none = none
after_restart saved c (some v) = restored saved c v

abbrev pub or_else {ℓ} : {A : Type ℓ} → Option A → Option A → Option A
or_else none o = o
or_else (some a) o = some a

bodies : Clock → List Entry → List (List ℕ)
bodies c [] = []
bodies c (it ∷ m) = item_body c it ∷ bodies c m

find-add_item :
    (k j : List ℕ) (o : Option (TimedVal Item)) (s : DataStore)
    → find j (add_item (Option.map (λ w. (k, w)) o) s).map
      ≡ or_else (find j s.map) (if bytes_eq k j then o else none)
unfolding add_item
find-add_item k j none s = ground (arith, Option-cases (find j s.map))
find-add_item k j (some v) s = ground (arith, find-emplace k j v s.map, Option-cases (find j s.map))

find-add_all :
    (saved c : Clock) (j : List ℕ) (m : List Entry) (s : DataStore)
    → All IsStorable m
    → IsDistinct m
    → find j (add_all (deserialize_item c) (bodies saved m) s).map
      ≡ or_else (find j s.map) (after_restart saved c (find j m))
unfolding bodies find
find-add_all saved c j [] s ok h = ground (arith, Option-cases (find j s.map))
find-add_all saved c j ((k, v) ∷ m) s ok h =
    let s' : DataStore = add_item (Option.map (λ w. (k, w)) (restored saved c v)) s in
    let rest = find-add_all saved c j m s' ok.1 h.1 in
    ap (λ o. find j (add_all (deserialize_item c) (bodies saved m) (add_item o s)).map)
      (deserialize_item-item_body saved c k v ok.0)
    ∙ ground (
      arith,
      rest,
      find-add_item k j (restored saved c v) s,
      bytes_eq_iff k j,
      h.0,
      Option-cases (find j s.map),
    )

serialize_all-bodies :
    (c : Clock) (m : List Entry)
    → All IsStorable m
    → serialize_all (serialize_item c) m ≡ blocks (bodies c m)
unfolding serialize_all serialize_item bodies
serialize_all-bodies c [] ok = refl
serialize_all-bodies c (it ∷ m) ok =
    let small : length (item_body c it) % 2 ^ 32 ≡ length (item_body c it) =
      mod-eq_of_lt (omega (arith, length-item_body c it, ok.0.key_fits, ok.0.content_fits)) in
    rw (small, serialize_all-bodies c m ok.1)

bodies_fit :
    (c : Clock) (m : List Entry) → All IsStorable m → All (λ b. length b < 2 ^ 31) (bodies c m)
unfolding bodies
bodies_fit c [] ok = tt
bodies_fit c (it ∷ m) ok =
    (omega (arith, length-item_body c it, ok.0.key_fits, ok.0.content_fits), bodies_fit c m ok.1)

length-bodies : (c : Clock) (m : List Entry) → length (bodies c m) ≡ length m
unfolding bodies
length-bodies c [] = refl
length-bodies c (it ∷ m) = ap suc (length-bodies c m)

blocks_big : (c : Clock) (m : List Entry) → 0 < length m → 4 < length (blocks (bodies c m))
unfolding bodies
blocks_big c [] h = absurd (omega arith)
blocks_big c (it ∷ m) h =
    let body = item_body c it in
    omega (
      arith,
      length-item_body c it,
      length-append (numeric_to_chars 4 (length body)) body,
      length-numeric_to_chars 4 (length body),
      length-append (numeric_to_chars 4 (length body) ++ body) (blocks (bodies c m)),
    )

-- A database that is not empty, whose items are not empty and whose keys and items have less
-- than 2 ^ 29 bytes each, and whose text has less than 2 ^ 63, is read back by an empty one:
-- each key has the item that it had, with its expiry carried over, unless it has expired; and
-- more rounds than entries are enough.
pub find-deserialize_data :
    (saved c : Clock) (fuel : ℕ) (s : DataStore)
    → 0 < length s.map
    → All IsStorable s.map
    → IsDistinct s.map
    → length (serialize_data saved s) < 2 ^ 63
    → length s.map < fuel
    → (t : DataStore) × (deserialize_data fuel c (serialize_data saved s) empty ≡ some t)
      × ((k : List ℕ) → find k t.map ≡ after_restart saved c (find k s.map))
unfolding serialize_data deserialize_data serialize
find-deserialize_data saved c fuel s some_entry ok h small hf =
    let written = serialize_all-bodies saved s.map ok in
    (
      add_all (deserialize_item c) (bodies saved s.map) empty,
      rw written (
          deserialize-blocks (deserialize_item c) (bodies saved s.map) fuel empty
            (blocks_big saved s.map some_entry) (bodies_fit saved s.map ok) (rw (← written) small)
            (omega (arith, length-bodies saved s.map))),
      λ k. find-add_all saved c k s.map empty ok h ∙ unfold find in refl,
    )
