-- ===== src/MapTime/History.antt =====
-- Histories of calls: a relation of steps, and what every reachable store satisfies.
use rssdisk.Base.{ℕ, ◌≡◌, Bool, Option, Eq}
use rssdisk.Base.Dict.{find}
use rssdisk.MapTime.Clocks.{Clock}
use rssdisk.MapTime.Store.{
  MapTime, TimedVal, empty, insert, erase, remove_if, clear, clear_ttl, add_item,
}
use rssdisk.MapTime.Invariant.{Inv, insert-Inv, erase-Inv, remove_if-Inv, clear-Inv, add_item-Inv}
use rssdisk.MapTime.Ttl.{clear_ttl-Inv, find-clear_ttl, unless_expired}

module _ {ℓ} {K T : Type ℓ} ⦃e : Eq K⦄ where
  -- One call that changes the store, or one entry that `deserialize` adds.
  pub data Step (s : MapTime K T) (s' : MapTime K T) : Type ℓ where
    inserts : (c : Clock) (k : K) (v : T) (ttl : ℕ) → s' ≡ insert c k v ttl s → Step s s'
    erases : (k : K) → s' ≡ erase k s → Step s s'
    removes : (k : K) (p : T → Bool) → s' ≡ remove_if k p s → Step s s'
    clears : s' ≡ clear s → Step s s'
    expires : (c : Clock) → s' ≡ clear_ttl c s → Step s s'
    restores : (it : Option (K × TimedVal T)) → s' ≡ add_item it s → Step s s'

  pub data Reachable : MapTime K T → Type ℓ where
    start : Reachable empty
    next : {s s' : MapTime K T} → Reachable s → Step s s' → Reachable s'

  Step-Inv : (s s' : MapTime K T) → Step s s' → Inv s → Inv s'
  Step-Inv s s' (inserts c k v ttl q) h = rw q (insert-Inv c k v ttl s h)
  Step-Inv s s' (erases k q) h = rw q (erase-Inv k s h)
  Step-Inv s s' (removes k p q) h = rw q (remove_if-Inv k p s h)
  Step-Inv s s' (clears q) h = rw q (clear-Inv s)
  Step-Inv s s' (expires c q) h = rw q (clear_ttl-Inv c s h)
  Step-Inv s s' (restores it q) h = rw q (add_item-Inv it s h)

  empty-Inv : Inv {K = K} {T = T} empty
  unfolding find
  empty-Inv = record { distinct = tt; sorted = tt; queued = λ k v f. cc }

  -- In every state that the operations reach from the empty map, each key stands once, the
  -- times are in order, and each entry's expiry is queued under its key.
  pub Reachable-Inv : {s : MapTime K T} → Reachable s → Inv s
  Reachable-Inv start = empty-Inv
  Reachable-Inv (next {s} {s'} r st) = Step-Inv s s' st (Reachable-Inv r)

  -- After any history, `clear_ttl` removes exactly the entries that have expired.
  pub clear_ttl_exact :
      (c : Clock) (k : K) {s : MapTime K T}
      → Reachable s
      → find k (clear_ttl c s).map ≡ unless_expired c.steady (find k s.map)
  clear_ttl_exact c k {s} r = find-clear_ttl c k s (Reachable-Inv r)
