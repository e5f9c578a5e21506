-- ===== src/JsonDb/Header/Placed.antt =====
-- The indices that `createDatabaseContent` writes are read back under their names.
use rssdisk.Base.{
  ℕ, ◌+◌, ◌%◌, ◌^◌, ◌<◌, ◌≡◌, refl, ap, ◌∙◌, List, [], ◌∷◌, false, arith, if◌then◌else◌, length,
  length-append, bytes, bytes_eq, bytes_eq_iff, All,
}
use rssdisk.Base.Dict.{find, assign, get_or, find-assign}
use rssdisk.Base.Words.{add_size}
use rssdisk.JsonDb.Index.{FieldType}
use rssdisk.JsonDb.Header.{Built, Sized, new_sized, index_bytes, place_indices}
use rssdisk.JsonDb.Header.Fields.{names, with_size, with_sizes}

-- No other index has the name.
abbrev pub IsOther : List ℕ → List Built → Type 0
IsOther name = All λ b. bytes_eq name b.0 ≡ false

abbrev pub HasDistinctNames : List Built → Type 0
HasDistinctNames [] = Unit
HasDistinctNames (b ∷ bs) = IsOther b.0 bs × HasDistinctNames bs

unfoldable pub sized : List ℕ → List (List ℕ × Sized) → Sized
sized name m = get_or (find name m) new_sized

sized-assign :
    (name key : List ℕ) (v : Sized) (m : List (List ℕ × Sized))
    → sized name (assign key v m) ≡ (if bytes_eq key name then v else sized name m)
unfolding sized
sized-assign name key v m = rw (find-assign key name v m) (ground arith)

module _ (fields : List (List ℕ × FieldType)) where
  with_sizes_other :
      (name : List ℕ) (bs : List Built) (m : List (List ℕ × Sized))
      → IsOther name bs
      → sized name (with_sizes fields bs m) ≡ sized name m
  with_sizes_other name [] m h = refl
  with_sizes_other name (b ∷ bs) m h =
      with_sizes_other name bs (with_size fields b m) h.1
      ∙ sized-assign name b.0 _ m
      ∙ ground (arith, h.0, bytes_eq_iff b.0 name, bytes_eq_iff name b.0)

abbrev pub HasSizes : List (List ℕ × Sized) → List Built → Type 0
HasSizes m = All λ b. (sized b.0 m).size ≡ length b.1

pub HasSizes-with_sizes :
    (fields : List (List ℕ × FieldType)) (bs : List Built) (m : List (List ℕ × Sized))
    → HasDistinctNames bs
    → HasSizes (with_sizes fields bs m) bs
HasSizes-with_sizes fields [] m h = tt
HasSizes-with_sizes fields (b ∷ bs) m h = (
  ap (λ (s : Sized). s.size)
        (with_sizes_other fields b.0 bs (with_size fields b m) h.0 ∙ sized-assign b.0 b.0 _ m)
      ∙ rw ((bytes_eq_iff b.0 b.0).1 refl),
  HasSizes-with_sizes fields bs (with_size fields b m) h.1,
)

-- Each index stands behind the one before.
abbrev pub IsPlaced : ℕ → List Built → List (List ℕ × Sized) → Type 0
IsPlaced l [] m = Unit
IsPlaced l (b ∷ bs) m =
    ((sized b.0 m).offset ≡ l) × ((sized b.0 m).size ≡ length b.1) × IsPlaced (l + length b.1) bs m

place_other :
    (name : List ℕ) (bs : List Built) (l : ℕ) (m : List (List ℕ × Sized))
    → IsOther name bs
    → sized name (place_indices (names bs) l m).1 ≡ sized name m
unfolding place_indices
place_other name [] l m h = refl
place_other name (b ∷ bs) l m h =
    place_other name bs _ _ h.1
    ∙ sized-assign name b.0 _ m
    ∙ ground (arith, h.0, bytes_eq_iff b.0 name, bytes_eq_iff name b.0)

HasSizes-assign :
    (key : List ℕ) (v : Sized) (m : List (List ℕ × Sized)) (bs : List Built)
    → IsOther key bs
    → HasSizes m bs
    → HasSizes (assign key v m) bs
HasSizes-assign key v m [] o h = tt
HasSizes-assign key v m (b ∷ bs) o h =
    (rw (sized-assign b.0 key v m, o.0) h.0, HasSizes-assign key v m bs o.1 h.1)

place_indices-cons :
    (b : Built) (bs : List Built) (l l' : ℕ) (m : List (List ℕ × Sized))
    → add_size l (get_or (find b.0 m) new_sized).size ≡ l'
    → place_indices (names (b ∷ bs)) l m
      ≡ place_indices
          (names bs)
          l'
          (assign b.0 (record (get_or (find b.0 m) new_sized) { offset = l % 2 ^ 32 }) m)
unfolding place_indices
place_indices-cons b bs l l' m next =
    ap
      (λ n.
        place_indices (names bs) n
          (assign b.0 (record (get_or (find b.0 m) new_sized) { offset = l % 2 ^ 32 }) m))
      next

pub place_indices-IsPlaced :
    (bs : List Built) (l : ℕ) (m : List (List ℕ × Sized))
    → HasDistinctNames bs
    → HasSizes m bs
    → l + length (index_bytes bs) < 2 ^ 32
    → IsPlaced l bs (place_indices (names bs) l m).1
      × ((place_indices (names bs) l m).0 ≡ l + length (index_bytes bs))
unfolding place_indices index_bytes
place_indices-IsPlaced [] l m d h small = (tt, omega arith)
place_indices-IsPlaced (b ∷ bs) l m d h small =
    let total = length-append b.1 (index_bytes bs) in
    let placed : Sized = record (get_or (find b.0 m) new_sized) { offset = l % 2 ^ 32 } in
    let m' : List (List ℕ × Sized) = assign b.0 placed m in
    let size : (get_or (find b.0 m) new_sized).size ≡ length b.1 = unfold sized in h.0 in
    let next : add_size l (get_or (find b.0 m) new_sized).size ≡ l + length b.1 =
      omega (arith, total, size) in
    let (rest, end) =
      place_indices-IsPlaced bs (l + length b.1) m' d.1 (HasSizes-assign b.0 placed m bs d.0 h.1)
        (omega (arith, total)) in
    let mine : sized b.0 (place_indices (names bs) (l + length b.1) m').1 ≡ placed =
      place_other b.0 bs (l + length b.1) m' d.0
      ∙ sized-assign b.0 b.0 placed m
      ∙ rw ((bytes_eq_iff b.0 b.0).1 refl) in
    rw (place_indices-cons b bs l (l + length b.1) m next)
      ((rw mine (omega (arith, total)), rw mine size, rest), end ∙ omega (arith, total))
