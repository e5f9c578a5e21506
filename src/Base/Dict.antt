-- ===== src/Base/Dict.antt =====
-- `std::unordered_map` and `std::map` as association lists over a key type with an equality test.
use mathlib.Core.Path.{◌≡◌, refl}
use mathlib.Core.Bool.{true}
use mathlib.Core.Option.{Option, none, some}
use mathlib.Core.List.{List, [], ◌∷◌}
use native.Mathlib.Omega.{arith}
use rssdisk.Base.Tests.{Eq, if◌then◌else◌}

abbrev pub get_or {ℓ} : {A : Type ℓ} → Option A → A → A
get_or none d = d
get_or (some a) d = a

module _ {ℓ κ} {K : Type ℓ} {V : Type κ} ⦃e : Eq K⦄ where
  -- `find`: the value, or `end()`.
  unfoldable pub find : K → List (K × V) → Option V
  find k [] = none
  find k ((j, w) ∷ m) = if e.beq j k then some w else find k m

  -- `map[k] = v`.
  unfoldable pub assign : K → V → List (K × V) → List (K × V)
  assign k v [] = (k, v) ∷ []
  assign k v ((j, w) ∷ m) = if e.beq j k then (j, v) ∷ m else (j, w) ∷ assign k v m

  -- `map.erase(k)`.
  unfoldable pub erase : K → List (K × V) → List (K × V)
  erase k [] = []
  erase k ((j, w) ∷ m) = if e.beq j k then erase k m else (j, w) ∷ erase k m

  -- `map.insert({k, v})`: a key that is there keeps its value.
  unfoldable pub emplace : K → V → List (K × V) → List (K × V)
  emplace k v [] = (k, v) ∷ []
  emplace k v ((j, w) ∷ m) = if e.beq j k then (j, w) ∷ m else (j, w) ∷ emplace k v m

  -- Each key stands once.
  abbrev pub IsDistinct : List (K × V) → Type κ
  IsDistinct [] = Unit {κ}
  IsDistinct ((k, v) ∷ m) = (find k m ≡ none) × IsDistinct m

pub beq_refl {ℓ} : {K : Type ℓ} ⦃e : Eq K⦄ (k : K) → e.beq k k ≡ true
beq_refl ⦃e⦄ k = (e.beq_iff k k).1 refl

module _ {ℓ κ} {K : Type ℓ} {V : Type κ} ⦃e : Eq K⦄ where
  pub find-assign :
      (k j : K) (v : V) (m : List (K × V))
      → find j (assign k v m) ≡ (if e.beq k j then some v else find j m)
  unfolding find assign
  find-assign k j v [] = refl
  find-assign k j v ((i, w) ∷ m) =
      ground (arith, e.beq_iff i k, e.beq_iff k j, e.beq_iff i j, find-assign k j v m)

  pub find-erase :
      (k j : K) (m : List (K × V)) → find j (erase k m) ≡ (if e.beq k j then none else find j m)
  unfolding find erase
  find-erase k j [] = ground arith
  find-erase k j ((i, w) ∷ m) =
      ground (arith, e.beq_iff i k, e.beq_iff k j, e.beq_iff i j, find-erase k j m)

  pub find-emplace :
      (k j : K) (v : V) (m : List (K × V))
      → find j (emplace k v m) ≡ (if e.beq k j then some (get_or (find j m) v) else find j m)
  unfolding find emplace
  find-emplace k j v [] = ground arith
  find-emplace k j v ((i, w) ∷ m) =
      ground (arith, e.beq_iff i k, e.beq_iff k j, e.beq_iff i j, find-emplace k j v m)

  pub assign-IsDistinct :
      (k : K) (v : V) (m : List (K × V)) → IsDistinct m → IsDistinct (assign k v m)
  unfolding assign find
  assign-IsDistinct k v [] h = (refl, tt)
  assign-IsDistinct k v ((i, w) ∷ m) h =
      ground (arith, find-assign k i v m, assign-IsDistinct k v m h.1, e.beq_iff i k, e.beq_iff k i)

  pub emplace-IsDistinct :
      (k : K) (v : V) (m : List (K × V)) → IsDistinct m → IsDistinct (emplace k v m)
  unfolding emplace find
  emplace-IsDistinct k v [] h = (refl, tt)
  emplace-IsDistinct k v ((i, w) ∷ m) h =
      ground
        (arith, find-emplace k i v m, emplace-IsDistinct k v m h.1, e.beq_iff i k, e.beq_iff k i)

  pub erase-IsDistinct : (k : K) (m : List (K × V)) → IsDistinct m → IsDistinct (erase k m)
  unfolding erase find
  erase-IsDistinct k [] h = tt
  erase-IsDistinct k ((i, w) ∷ m) h = ground (arith, find-erase k i m, erase-IsDistinct k m h.1)
