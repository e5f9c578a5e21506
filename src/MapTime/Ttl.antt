-- ===== src/MapTime/Ttl.antt =====
-- What `clear_ttl` removes, and what it leaves.
use rssdisk.Base.{
  ℕ, ◌≤◌, ◌<◌, ◌≡◌, refl, inl, inr, Bool, true, false, ◌||◌, List, [], ◌∷◌, Option, none, some, ltb,
  if◌then◌else◌, Eq, All, arith, Option-cases,
}
use rssdisk.Base.Dict.{find, find-erase, erase-IsDistinct, IsDistinct}
use rssdisk.MapTime.Clocks.{Clock}
use rssdisk.MapTime.Store.{MapTime, TimedVal, clear_ttl, clear_ttl_loop, erase_expired}
use rssdisk.MapTime.Invariant.{IsSorted, has_time, Inv}

-- An entry that has expired before `n` counts as gone.
abbrev pub unless_expired {ℓ} : {T : Type ℓ} → ℕ → Option (TimedVal T) → Option (TimedVal T)
unless_expired n none = none
unless_expired n (some v) = if ltb v.valid_until n then none else some v

module _ {ℓ} {K : Type ℓ} ⦃e : Eq K⦄ where
  -- The key stands in the part of the queue that the loop goes through.
  abbrev touched : ℕ → K → List (ℕ × K) → Bool
  touched n k [] = false
  touched n k ((t, j) ∷ ts) = if ltb t n then e.beq j k || touched n k ts else false

  touched-has_time :
      (n t : ℕ) (k : K) (ts : List (ℕ × K))
      → IsSorted ts
      → t < n
      → has_time t k ts ≡ true
      → touched n k ts ≡ true
  touched-has_time n t k [] s h e = cc
  touched-has_time n t k ((u, j) ∷ ts) s h e =
      ground (arith, touched-has_time n t k ts s.1 h, head_le t k u ts s.0)
    where
      head_le :
          (t : ℕ) (k : K) (u : ℕ) (ts : List (ℕ × K))
          → All (λ (p : ℕ × K). u ≤ p.0) ts
          → has_time t k ts ≡ true
          → u ≤ t
      head_le t k u [] a h = cc
      head_le t k u ((v, i) ∷ ts) a h = ground (arith, head_le t k u ts a.1)

module _ {ℓ} {K T : Type ℓ} ⦃e : Eq K⦄ where
  find-erase_expired :
      (n : ℕ) (k j : K) (m : List (K × TimedVal T))
      → find j (erase_expired n k (find k m) m)
        ≡ (if e.beq k j then unless_expired n (find j m) else find j m)
  unfolding erase_expired
  find-erase_expired n k j m =
      ground (arith, Option-cases (find k m), find-erase k j m, e.beq_iff k j)

  find-clear_ttl_loop :
      (n : ℕ) (k : K) (ts : List (ℕ × K)) (m : List (K × TimedVal T))
      → find k (clear_ttl_loop n ts m).map
        ≡ (if touched n k ts then unless_expired n (find k m) else find k m)
  unfolding clear_ttl_loop
  find-clear_ttl_loop n k [] m = refl
  find-clear_ttl_loop n k ((t, j) ∷ ts) m = ground (
    arith,
    find-clear_ttl_loop n k ts (erase_expired n j (find j m) m),
    find-erase_expired n j k m,
    Option-cases (find k m),
  )

  -- On a store that meets the invariant, exactly the entries that have expired go.
  pub find-clear_ttl :
      (c : Clock) (k : K) (s : MapTime K T)
      → Inv s
      → find k (clear_ttl c s).map ≡ unless_expired c.steady (find k s.map)
  unfolding clear_ttl
  find-clear_ttl c k s h = elim (Option-cases (find k s.map)) [
    | inl e ↦ rw (find-clear_ttl_loop c.steady k s.times s.map) (ground arith)
    | inr (v, e) ↦
        rw (find-clear_ttl_loop c.steady k s.times s.map)
          (ground (arith, touched-has_time c.steady v.valid_until k s.times h.sorted, h.queued k v))
  ]

  clear_ttl_loop-IsSorted :
      (n : ℕ) (ts : List (ℕ × K)) (m : List (K × TimedVal T))
      → IsSorted ts
      → IsSorted (clear_ttl_loop n ts m).times
  unfolding clear_ttl_loop
  clear_ttl_loop-IsSorted n [] m s = tt
  clear_ttl_loop-IsSorted n ((t, j) ∷ ts) m s =
      ground (arith, clear_ttl_loop-IsSorted n ts (erase_expired n j (find j m) m) s.1)

  erase_expired-IsDistinct :
      (n : ℕ) (k : K) (o : Option (TimedVal T)) (m : List (K × TimedVal T))
      → IsDistinct m
      → IsDistinct (erase_expired n k o m)
  unfolding erase_expired
  erase_expired-IsDistinct n k none m h = h
  erase_expired-IsDistinct n k (some v) m h = ground (arith, erase-IsDistinct k m h)

  clear_ttl_loop-IsDistinct :
      (n : ℕ) (ts : List (ℕ × K)) (m : List (K × TimedVal T))
      → IsDistinct m
      → IsDistinct (clear_ttl_loop n ts m).map
  unfolding clear_ttl_loop
  clear_ttl_loop-IsDistinct n [] m h = h
  clear_ttl_loop-IsDistinct n ((t, j) ∷ ts) m h = ground (
    arith,
    clear_ttl_loop-IsDistinct n ts (erase_expired n j (find j m) m)
        (erase_expired-IsDistinct n j (find j m) m h),
  )

  -- A time that is not past stays in the queue.
  has_time-clear_ttl_loop :
      (n t : ℕ) (k : K) (ts : List (ℕ × K)) (m : List (K × TimedVal T))
      → n ≤ t
      → has_time t k (clear_ttl_loop n ts m).times ≡ has_time t k ts
  unfolding clear_ttl_loop
  has_time-clear_ttl_loop n t k [] m h = refl
  has_time-clear_ttl_loop n t k ((u, j) ∷ ts) m h =
      ground (arith, has_time-clear_ttl_loop n t k ts (erase_expired n j (find j m) m) h)

  pub clear_ttl-Inv : (c : Clock) (s : MapTime K T) → Inv s → Inv (clear_ttl c s)
  unfolding clear_ttl
  clear_ttl-Inv c s h = record {
    distinct = clear_ttl_loop-IsDistinct c.steady s.times s.map h.distinct;
    sorted = clear_ttl_loop-IsSorted c.steady s.times s.map h.sorted;
    queued = λ k v f. ground (
      arith,
      find-clear_ttl c k s h,
      Option-cases (find k s.map),
      h.queued k v,
      has_time-clear_ttl_loop c.steady v.valid_until k s.times s.map,
    );
  }
