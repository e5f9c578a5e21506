-- ===== src/MapTime/Invariant.antt =====
-- The queue is sorted, the keys are distinct, and every entry's expiry stands in the queue.
use rssdisk.Base.{
  ℕ, ◌+◌, ◌%◌, ◌^◌, ◌≤◌, ◌≡◌, refl, inl, inr, Bool, true, false, ◌&&◌, ◌||◌, List, [], ◌∷◌, Option,
  none, some, ◌==◌, if◌then◌else◌, Eq, All, arith, Option-cases,
}
use rssdisk.Base.Dict.{
  find, assign, emplace, beq_refl, find-assign, find-erase, find-emplace, assign-IsDistinct,
  emplace-IsDistinct, erase-IsDistinct, IsDistinct, get_or,
}
use rssdisk.Base.Dict
use rssdisk.MapTime.Clocks.{Clock, seconds}
use rssdisk.MapTime.Store.{
  MapTime, TimedVal, insert, insert_time, erase, remove_if, remove_found, clear, add_item,
}

module _ {ℓ} {K : Type ℓ} where
  abbrev pub IsSorted : List (ℕ × K) → Type 0
  IsSorted [] = Unit
  IsSorted ((t, k) ∷ ts) = All (λ (p : ℕ × K). t ≤ p.0) ts × IsSorted ts

  All-insert_time :
      (b t : ℕ) (k : K) (ts : List (ℕ × K))
      → b ≤ t
      → All (λ (p : ℕ × K). b ≤ p.0) ts
      → All (λ (p : ℕ × K). b ≤ p.0) (insert_time t k ts)
  unfolding insert_time
  All-insert_time b t k [] h a = (h, tt)
  All-insert_time b t k ((u, j) ∷ ts) h a = ground (arith, All-insert_time b t k ts)

  All-weaken :
      (a b : ℕ) (ts : List (ℕ × K))
      → a ≤ b
      → All (λ (p : ℕ × K). b ≤ p.0) ts
      → All (λ (p : ℕ × K). a ≤ p.0) ts
  All-weaken a b [] h x = tt
  All-weaken a b ((u, j) ∷ ts) h x = (omega arith, All-weaken a b ts h x.1)

  pub insert_time-IsSorted :
      (t : ℕ) (k : K) (ts : List (ℕ × K)) → IsSorted ts → IsSorted (insert_time t k ts)
  unfolding insert_time
  insert_time-IsSorted t k [] s = (tt, tt)
  insert_time-IsSorted t k ((u, j) ∷ ts) s =
      ground (arith, insert_time-IsSorted t k ts s.1, All-insert_time u t k ts, All-weaken t u ts)

module _ {ℓ} {K : Type ℓ} ⦃e : Eq K⦄ where
  -- The queue holds the time with the key.
  abbrev pub has_time : ℕ → K → List (ℕ × K) → Bool
  has_time t k [] = false
  has_time t k ((u, j) ∷ ts) = (u == t && e.beq j k) || has_time t k ts

  pub has_time-insert_time :
      (t u : ℕ) (k j : K) (ts : List (ℕ × K))
      → has_time t k (insert_time u j ts) ≡ ((u == t && e.beq j k) || has_time t k ts)
  unfolding insert_time
  has_time-insert_time t u k j [] = refl
  has_time-insert_time t u k j ((v, i) ∷ ts) = ground (arith, has_time-insert_time t u k j ts)

module _ {ℓ} {K T : Type ℓ} ⦃e : Eq K⦄ where
  pub record Inv (s : MapTime K T) : Type ℓ where
    pub distinct : IsDistinct s.map
    pub sorted : IsSorted s.times
    pub queued :
        (k : K) (v : TimedVal T) → find k s.map ≡ some v → has_time v.valid_until k s.times ≡ true

  pub insert-Inv :
      (c : Clock) (k : K) (v : T) (ttl : ℕ) (s : MapTime K T) → Inv s → Inv (insert c k v ttl s)
  unfolding insert
  insert-Inv c k v ttl s h =
      let until = (c.steady + seconds ttl) % 2 ^ 64 in
      let new : TimedVal T = record { val = v; valid_until = until } in
      record {
        distinct = assign-IsDistinct k new s.map h.distinct;
        sorted = insert_time-IsSorted until k s.times h.sorted;
        queued = λ j w f. ground (
          arith,
          find-assign k j new s.map,
          has_time-insert_time w.valid_until until j k s.times,
          h.queued j w,
        );
      }

  pub erase-Inv : (k : K) (s : MapTime K T) → Inv s → Inv (erase k s)
  unfolding erase
  erase-Inv k s h = record {
    distinct = erase-IsDistinct k s.map h.distinct;
    sorted = h.sorted;
    queued = λ j w f. ground (arith, find-erase k j s.map, h.queued j w);
  }

  pub remove_if-Inv : (k : K) (p : T → Bool) (s : MapTime K T) → Inv s → Inv (remove_if k p s)
  unfolding remove_if remove_found
  remove_if-Inv k p s h = elim (Option-cases (find k s.map)) [
    | inl e ↦ rw (e, remove_found) h
    | inr (v, e) ↦ rw (e, remove_found) (choose (p v.val))
  ]
    where
      choose : (b : Bool) → Inv (if b then record s { map = Dict.erase k s.map } else s)
      choose true = unfold erase in erase-Inv k s h
      choose false = h

  pub clear-Inv : (s : MapTime K T) → Inv (clear s)
  unfolding clear find
  clear-Inv s = record { distinct = tt; sorted = tt; queued = λ j w f. cc }

  pub add_item-Inv : (it : Option (K × TimedVal T)) (s : MapTime K T) → Inv s → Inv (add_item it s)
  unfolding add_item
  add_item-Inv none s h = h
  add_item-Inv (some (k, v)) s h = record {
    distinct = emplace-IsDistinct k v s.map h.distinct;
    sorted = insert_time-IsSorted v.valid_until k s.times h.sorted;
    queued = λ j w f. ground (
      arith,
      find-emplace k j v s.map,
      Option-cases (find j s.map),
      has_time-insert_time w.valid_until v.valid_until j k s.times,
      h.queued j w,
      e.beq_iff k j,
    );
  }
