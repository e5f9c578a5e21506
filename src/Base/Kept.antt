-- ===== src/Base/Kept.antt =====
-- A map whose entries a test has kept or dropped.
use Prim.Native.Nat.{ℕ, ◌≤◌}
use mathlib.Core.Path.{◌≡◌, refl, sym, ap, ◌∙◌}
use mathlib.Core.Logic.{inl, inr}
use mathlib.Core.Bool.{Bool}
use mathlib.Core.Option.{Option, none, some}
use mathlib.Core.List.{List, [], ◌∷◌}
use native.Mathlib.Omega.{arith}
use rssdisk.Base.Tests.{if◌then◌else◌, bytes, bytes_eq, bytes_eq_iff, Bool-cases}
use rssdisk.Base.Lists.{keep_if, length, All}
use rssdisk.Base.Dict.{find, IsDistinct}

-- What stays of a value that the test may drop.
abbrev pub passed {ℓ κ} : {K : Type ℓ} {V : Type κ} → (K × V → Bool) → K → Option V → Option V
passed p k none = none
passed p k (some v) = if p (k, v) then some v else none

module _ {ℓ} {V : Type ℓ} (p : List ℕ × V → Bool) where
  find-keep_if-none :
      (k : List ℕ) (m : List (List ℕ × V)) → find k m ≡ none → find k (keep_if p m) ≡ none
  unfolding find
  find-keep_if-none k [] h = refl
  find-keep_if-none k ((i, v) ∷ m) h = elim (Bool-cases (bytes_eq i k)) [
    | inl e ↦ absurd (ground (arith, e, h))
    | inr e ↦
        let ih = find-keep_if-none k m (ground (arith, e, h)) in
        elim (Bool-cases (p (i, v))) [ inl t ↦ rw (t, e) ih | inr t ↦ rw t ih ]
  ]

  pub find-keep_if :
      (k : List ℕ) (m : List (List ℕ × V))
      → IsDistinct m
      → find k (keep_if p m) ≡ passed p k (find k m)
  unfolding find
  find-keep_if k [] h = refl
  find-keep_if k ((i, v) ∷ m) h = elim (Bool-cases (bytes_eq i k)) [
    | inl e ↦
        let same : i ≡ k = (bytes_eq_iff i k).0 e in
        let gone : find k (keep_if p m) ≡ none =
          find-keep_if-none k m (ap (λ x. find x m) (sym same) ∙ h.0) in
        elim (Bool-cases (p (i, v))) [
          | inl t ↦ let t' = ap (λ x. p (x, v)) (sym same) ∙ t in rw (e, t, t') (rw e refl)
          | inr t ↦ let t' = ap (λ x. p (x, v)) (sym same) ∙ t in rw (e, t, t') gone
        ]
    | inr e ↦
        let ih = find-keep_if k m h.1 in
        elim (Bool-cases (p (i, v))) [ inl t ↦ rw (t, e) ih | inr t ↦ rw (t, e) ih ]
  ]

  pub IsDistinct-keep_if : (m : List (List ℕ × V)) → IsDistinct m → IsDistinct (keep_if p m)
  IsDistinct-keep_if [] h = tt
  IsDistinct-keep_if ((i, v) ∷ m) h = elim (Bool-cases (p (i, v))) [
    | inl t ↦ rw t (find-keep_if-none i m h.0, IsDistinct-keep_if m h.1)
    | inr t ↦ rw t (IsDistinct-keep_if m h.1)
  ]

  pub All-keep_if {κ} :
      (P : List ℕ × V → Type κ) (m : List (List ℕ × V)) → All P m → All P (keep_if p m)
  All-keep_if P [] h = tt
  All-keep_if P (e ∷ m) h = elim (Bool-cases (p e)) [
    | inl t ↦ rw t (h.0, All-keep_if P m h.1)
    | inr t ↦ rw t (All-keep_if P m h.1)
  ]

  pub length-keep_if : (m : List (List ℕ × V)) → length (keep_if p m) ≤ length m
  length-keep_if [] = omega arith
  length-keep_if (e ∷ m) = elim (Bool-cases (p e)) [
    | inl t ↦ rw t (omega (arith, length-keep_if m))
    | inr t ↦ rw t (omega (arith, length-keep_if m))
  ]
