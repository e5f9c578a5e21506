-- ===== src/MapTime/Access.antt =====
-- What `get` returns after the other operations.
use rssdisk.Base.{
  ℕ, ◌+◌, ◌%◌, ◌^◌, ◌≤◌, ◌≡◌, Bool, false, ◌&&◌, Option, none, some, leb, if◌then◌else◌, Eq, arith,
  Option-cases,
}
use rssdisk.Base.Dict.{find, find-assign, find-erase}
use rssdisk.MapTime.Clocks.{Clock, seconds}
use rssdisk.MapTime.Store.{
  MapTime, TimedVal, insert, erase, get, if_valid, remove_if, remove_found, clear_ttl,
}
use rssdisk.MapTime.Invariant.{Inv}
use rssdisk.MapTime.Ttl.{find-clear_ttl}

-- The value is there and passes the test.
abbrev pub passes {ℓ} : {T : Type ℓ} → (T → Bool) → Option (TimedVal T) → Bool
passes p none = false
passes p (some v) = p v.val

module _ {ℓ} {K T : Type ℓ} ⦃e : Eq K⦄ where
  -- An inserted value is returned until its time, and hides what the key had before; other
  -- keys are as they were.
  pub get-insert :
      (c d : Clock) (k j : K) (v : T) (ttl : ℕ) (s : MapTime K T)
      → get d j (insert c k v ttl s) ≡ (
          if e.beq k j
          then if leb d.steady ((c.steady + seconds ttl) % 2 ^ 64) then some v else none
          else get d j s)
  unfolding get insert if_valid
  get-insert c d k j v ttl s =
      let until = (c.steady + seconds ttl) % 2 ^ 64 in
      ground (
        arith,
        find-assign k j (record { val = v; valid_until = until }) s.map,
        Option-cases (find j s.map),
      )

  pub get-erase :
      (c : Clock) (k j : K) (s : MapTime K T)
      → get c j (erase k s) ≡ (if e.beq k j then none else get c j s)
  unfolding get erase if_valid
  get-erase c k j s = ground (arith, find-erase k j s.map, Option-cases (find j s.map))

  -- The value of the key, also when it has expired.
  abbrev pub stored : K → MapTime K T → Option (TimedVal T)
  stored k s = find k s.map

  -- `remove_if` takes away the key's value exactly if its value, expired or not, passes the
  -- test; other keys are as they were.
  pub get-remove_if :
      (c : Clock) (k j : K) (p : T → Bool) (s : MapTime K T)
      → get c j (remove_if k p s) ≡ (if e.beq k j && passes p (stored k s) then none else get c j s)
  unfolding get remove_if remove_found if_valid
  get-remove_if c k j p s = ground (
    arith,
    Option-cases (find k s.map),
    Option-cases (find j s.map),
    find-erase k j s.map,
    e.beq_iff k j,
  )

  -- Where the entries and the times agree, clearing expired entries is invisible to every
  -- `get` at the same time or later.
  pub get-clear_ttl :
      (c d : Clock) (k : K) (s : MapTime K T)
      → Inv s
      → c.steady ≤ d.steady
      → get d k (clear_ttl c s) ≡ get d k s
  unfolding get if_valid
  get-clear_ttl c d k s h le = ground (arith, find-clear_ttl c k s h, Option-cases (find k s.map))
