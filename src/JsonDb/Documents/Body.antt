-- ===== src/JsonDb/Documents/Body.antt =====
-- The text of the time to live is passed, and the body that is written for new documents without
-- blocks is the texts of the documents.
use rssdisk.Base.{
  ℕ, zero, suc, ◌+◌, ◌<◌, ◌≡◌, ◌≢◌, refl, sym, ap, ◌∙◌, List, [], ◌∷◌, ◌++◌, false, Option, none,
  some, arith, length, drop, append_assoc, append-nil, map, All, ◌==◌, bytes, inl, inr, Bool-cases,
}
use rssdisk.Base.Dict.{find}
use rssdisk.Bitbase.Fields.{drop_field}
use rssdisk.JsonDb.Index.{FieldType}
use rssdisk.JsonDb.Query.{Json, try_make_index_parameter}
use rssdisk.JsonDb.Metadata.{Zlib, skip_ttl}
use rssdisk.JsonDb.Content.{Build, add_value, is_none_type}
use rssdisk.JsonDb.Content.Items.{indexed, add_names, add_item, add_items}
use rssdisk.JsonDb.Documents.{joined, joined_more}

pub skip_ttl_lem :
    (n l : ℕ) (d ttl rest : List ℕ)
    → All (λ c. c ≢ 32) ttl
    → length ttl < n
    → drop l d ≡ ttl ++ 32 ∷ rest
    → skip_ttl n d l ≡ l + length ttl + 1
unfolding skip_ttl
skip_ttl_lem zero l d ttl rest h enough at = absurd (omega arith)
skip_ttl_lem (suc n) l d [] rest h enough at = rw at (omega arith)
skip_ttl_lem (suc n) l d (c ∷ ttl) rest h enough at =
    let next : drop (l + 1) d ≡ ttl ++ 32 ∷ rest =
      drop_field l 1 d (c ∷ []) (ttl ++ 32 ∷ rest) at refl in
    let t : (c == 32) ≡ false = ground (arith, h.0) in
    rw (at, t) (skip_ttl_lem n (l + 1) d ttl rest h.1 (omega (arith, enough)) next ∙ omega arith)

module _ (j : Json) (z : Zlib) (fields : List (List ℕ × FieldType)) where
  open j use {Value, member_names, to_string}

  indexed-body :
      (item : Value) (name : List ℕ) (o : Option FieldType) (b : Build)
      → (indexed j z 0 fields item name o b).body ≡ b.body
  unfolding add_value
  indexed-body item name none b = refl
  indexed-body item name (some tp) b =
      elim (Bool-cases (is_none_type (try_make_index_parameter j item name 0 tp).0)) [
        | inl t ↦ rw t refl
        | inr t ↦ rw t refl
      ]

  add_names-body :
      (item : Value) (names : List (List ℕ)) (b : Build)
      → (add_names j z 0 fields item names b).body ≡ b.body
  unfolding add_names
  add_names-body item [] b = refl
  add_names-body item (name ∷ names) b =
      add_names-body item names _ ∙ indexed-body item name (find name fields) b

  pub add_items-body :
      (vs : List Value) (b : Build)
      → (add_items j z 0 fields vs b).body ≡ b.body ++ joined_more (map to_string vs)
  unfolding add_items add_item
  add_items-body [] b = sym (append-nil b.body)
  add_items-body (item ∷ vs) b =
      add_items-body vs _
      ∙ ap (λ x. (x ++ 44 ∷ to_string item) ++ joined_more (map to_string vs))
          (add_names-body item (member_names item) (record b { json_data = to_string item }))
      ∙ append_assoc b.body (44 ∷ to_string item) (joined_more (map to_string vs))

pub drop-joined_more : (cs : List (List ℕ)) → drop 1 (joined_more cs) ≡ joined cs
drop-joined_more [] = refl
drop-joined_more (c ∷ cs) = refl
