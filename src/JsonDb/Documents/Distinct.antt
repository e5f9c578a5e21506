-- ===== src/JsonDb/Documents/Distinct.antt =====
-- The settings name each index once, so that the indices that are built have names all different.
use rssdisk.Base.{
  ℕ, ◌≡◌, List, [], ◌∷◌, Bool, ◌&&◌, none, arith, bytes, bytes_eq, bytes_eq_iff, Bool-cases, inl,
  inr,
}
use rssdisk.Base.Dict.{find, IsDistinct, emplace-IsDistinct}
use rssdisk.JsonDb.Index.{FieldType}
use rssdisk.JsonDb.Query.{Json}
use rssdisk.JsonDb.Metadata.{Zlib}
use rssdisk.JsonDb.Content.{Slots, key_index}
use rssdisk.JsonDb.Content.Items.{read_field, read_fields, read_settings, is_member_of}
use rssdisk.JsonDb.Content.Create.{build_new}
use rssdisk.JsonDb.Header.Placed.{IsOther, HasDistinctNames}

module _ (j : Json) where
  open j use {Value, is_object, is_array, is_string, items, member}

  read_field-IsDistinct :
      (item : Value) (fields : List (List ℕ × FieldType))
      → IsDistinct fields
      → IsDistinct (read_field j item fields)
  unfolding read_field
  read_field-IsDistinct item fields h =
      elim (Bool-cases (is_object item && is_member_of j is_string item (110 ∷ []))) [
        | inl t ↦ rw t (emplace-IsDistinct _ _ fields h)
        | inr t ↦ rw t h
      ]

  read_fields-IsDistinct :
      (vs : List Value) (fields : List (List ℕ × FieldType))
      → IsDistinct fields
      → IsDistinct (read_fields j vs fields)
  unfolding read_fields
  read_fields-IsDistinct [] fields h = h
  read_fields-IsDistinct (item ∷ vs) fields h =
      read_fields-IsDistinct vs (read_field j item fields) (read_field-IsDistinct item fields h)

  pub read_settings-IsDistinct : (s : Value) → IsDistinct (read_settings j s).indexed_fields
  unfolding read_settings
  read_settings-IsDistinct s = elim (Bool-cases (is_object s)) [
    | inr t ↦ rw t tt
    | inl t ↦ elim (Bool-cases (is_member_of j is_array s key_index)) [
      | inl u ↦ rw (t, u) (read_fields-IsDistinct (items (member s key_index)) [] tt)
      | inr u ↦ rw (t, u) tt
    ]
  ]

module _ (z : Zlib) (compressed : Bool) (structs : List (List ℕ × Slots)) where
  build_new-IsOther :
      (name : List ℕ) (fields : List (List ℕ × FieldType))
      → find name fields ≡ none
      → IsOther name (build_new z compressed structs fields)
  unfolding find build_new
  build_new-IsOther name [] h = tt
  build_new-IsOther name ((k, t) ∷ fields) h = elim (Bool-cases (bytes_eq k name)) [
    | inl e ↦ absurd (ground (arith, e, h))
    | inr e ↦ (
      ground (arith, e, bytes_eq_iff k name, bytes_eq_iff name k),
      build_new-IsOther name fields (ground (arith, e, h)),
    )
  ]

  pub build_new-HasDistinctNames :
      (fields : List (List ℕ × FieldType))
      → IsDistinct fields
      → HasDistinctNames (build_new z compressed structs fields)
  unfolding build_new
  build_new-HasDistinctNames [] h = tt
  build_new-HasDistinctNames ((k, t) ∷ fields) h =
      (build_new-IsOther k fields h.0, build_new-HasDistinctNames fields h.1)
