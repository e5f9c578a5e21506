-- ===== src/MapTime/Store.antt =====
-- libs/map_time.h: the class `map_time`, its state and its operations.
use rssdisk.Base.{
  ℕ, zero, suc, ◌+◌, ◌%◌, ◌^◌, Bool, List, [], ◌∷◌, ◌++◌, Option, none, some, ltb, leb,
  if◌then◌else◌, length, take, drop, Eq,
}
use rssdisk.Base.Dict.{find, assign, emplace}
use rssdisk.Base.Dict
use rssdisk.Base.Words.{i32→size, add_size}
use rssdisk.Bitbase.{chars_to_numeric}
use rssdisk.MapTime.Clocks.{Clock, seconds}

pub record TimedVal {ℓ} (T : Type ℓ) : Type ℓ where
  pub val : T
  pub valid_until : ℕ

pub record MapTime {ℓ} (K : Type ℓ) (T : Type ℓ) : Type ℓ where
  pub map : List (K × TimedVal T)
  pub times : List (ℕ × K)

pub record Stat : Type 0 where
  pub count_elements : ℕ
  pub count_times : ℕ

module _ {ℓ} {K : Type ℓ} where
  -- `std::multimap::insert`: behind the entries with the same key.
  unfoldable pub insert_time : ℕ → K → List (ℕ × K) → List (ℕ × K)
  insert_time t k [] = (t, k) ∷ []
  insert_time t k ((u, j) ∷ ts) =
      if leb u t then (u, j) ∷ insert_time t k ts else (t, k) ∷ (u, j) ∷ ts

unfoldable pub if_valid {ℓ} : {T : Type ℓ} → ℕ → Option (TimedVal T) → Option T
if_valid now none = none
if_valid now (some v) = if leb now v.valid_until then some v.val else none

module _ {ℓ} {K T : Type ℓ} where
  abbrev pub empty : MapTime K T
  empty = record { map = []; times = [] }

  unfoldable pub get_stat : MapTime K T → Stat
  get_stat s = record { count_elements = length s.map; count_times = length s.times }

  unfoldable pub get_all : MapTime K T → List (K × TimedVal T)
  get_all s = s.map

  unfoldable pub clear : MapTime K T → MapTime K T
  clear s = record { map = []; times = [] }

  unfoldable pub serialize_all : (K × TimedVal T → List ℕ) → List (K × TimedVal T) → List ℕ
  serialize_all f [] = []
  serialize_all f (it ∷ m) = f it ++ serialize_all f m

  -- `serialize_function` may be null, here `none`.
  unfoldable pub serialize : Option (K × TimedVal T → List ℕ) → MapTime K T → List ℕ
  unfolding serialize_all
  serialize none s = []
  serialize (some f) s = serialize_all f s.map

module _ {ℓ} {K T : Type ℓ} ⦃e : Eq K⦄ where
  unfoldable pub insert : Clock → K → T → ℕ → MapTime K T → MapTime K T
  insert c k v ttl s =
      let until = (c.steady + seconds ttl) % 2 ^ 64 in
      record {
        map = assign k (record { val = v; valid_until = until }) s.map;
        times = insert_time until k s.times;
      }

  -- The entry of the key goes; its time stays in the queue.
  unfoldable pub erase : K → MapTime K T → MapTime K T
  erase k s = record s { map = Dict.erase k s.map }

  -- `*val` and the result true, or the result false.
  unfoldable pub get : Clock → K → MapTime K T → Option T
  unfolding if_valid
  get c k s = if_valid c.steady (find k s.map)

  unfoldable pub remove_found : K → (T → Bool) → Option (TimedVal T) → MapTime K T → MapTime K T
  remove_found k pred none s = s
  remove_found k pred (some v) s = if pred v.val then record s { map = Dict.erase k s.map } else s

  unfoldable pub remove_if : K → (T → Bool) → MapTime K T → MapTime K T
  unfolding remove_found
  remove_if k pred s = remove_found k pred (find k s.map) s

  unfoldable pub erase_expired :
      ℕ → K → Option (TimedVal T) → List (K × TimedVal T) → List (K × TimedVal T)
  erase_expired n k none m = m
  erase_expired n k (some v) m = if ltb v.valid_until n then Dict.erase k m else m

  -- The loop over the queue up to the first time that is not past; the queue that is left, and the map.
  unfoldable pub clear_ttl_loop : ℕ → List (ℕ × K) → List (K × TimedVal T) → MapTime K T
  unfolding erase_expired
  clear_ttl_loop n [] m = record { map = m; times = [] }
  clear_ttl_loop n ((t, k) ∷ ts) m =
      if ltb t n
      then clear_ttl_loop n ts (erase_expired n k (find k m) m)
      else record { map = m; times = (t, k) ∷ ts }

  unfoldable pub clear_ttl : Clock → MapTime K T → MapTime K T
  clear_ttl c s = clear_ttl_loop c.steady s.times s.map

  -- `map.insert(item)`, which keeps an old entry of the key, and `times.insert`.
  unfoldable pub add_item : Option (K × TimedVal T) → MapTime K T → MapTime K T
  add_item none s = s
  add_item (some (k, v)) s = record {
    map = emplace k v s.map;
    times = insert_time v.valid_until k s.times;
  }

  -- The loop over the blocks; `none` means that the rounds given did not end it. Neither `substr`
  -- can throw, since its position has been compared with the size.
  unfoldable pub deserialize_loop :
      ℕ → (List ℕ → Option (K × TimedVal T)) → List ℕ → ℕ → MapTime K T → Option (MapTime K T)
  deserialize_loop zero f d start s = none
  deserialize_loop (suc fuel) f d start s =
      let block = chars_to_numeric 4 (take 4 (drop start d)) in
      let from = start + 4 in
      let next = add_size from (i32→size block) in
      let rest =
        deserialize_loop fuel f d next (add_item (f (take (i32→size block) (drop from d))) s) in
      if leb (start + 4) (length d) then if leb next (length d) then rest else some s else some s

  -- `deserialize_function` may be null, here `none`.
  unfoldable pub deserialize :
      ℕ → Option (List ℕ → Option (K × TimedVal T)) → List ℕ → MapTime K T → Option (MapTime K T)
  deserialize fuel none d s = some s
  deserialize fuel (some f) d s = if ltb 4 (length d) then deserialize_loop fuel f d 0 s else some s
