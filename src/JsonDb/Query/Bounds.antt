-- ===== src/JsonDb/Query/Bounds.antt =====
-- A query with bounds matches the documents whose value lies within them.
use rssdisk.Base.{
  ℕ, ◌-◌, ◌^◌, ◌≡◌, refl, ap, ◌∙◌, ◌⊎◌, List, [], ◌∷◌, Bool, true, false, not, ◌&&◌, ◌||◌, Option,
  none, some, arith, bytes,
}
use rssdisk.Base.Words.{ltb_i64, i32→size}
use rssdisk.JsonDb.Index.{FieldType, numeric, none_type}
use rssdisk.JsonDb.Query.{
  is_compare, Json, Query, TypeOperation, try_make_index_parameter, bounds, f_search_val, f_search,
  matches, matching, new_query, key_in, key_lt, key_lte, key_gt, key_gte, upper_bound, lower_bound,
  search_names, in_bounds, compare, lt, lte, gt, gte, with_gt, with_gte, range_lt_gt, range_lt_gte,
  range_lte_gt, range_lte_gte,
}
use rssdisk.Base.Dict.{emplace}

-- One side of a range.
pub data Bound : Type 0 where
  unbounded : Bound
  strict : ℕ → Bound
  weak : ℕ → Bound

abbrev pub is_bound : Bound → Bool
is_bound unbounded = false
is_bound (strict m) = true
is_bound (weak m) = true

-- Whether a value meets it, as a signed number.
abbrev pub under : Bound → ℕ → Bool
under unbounded i = true
under (strict m) i = ltb_i64 i m
under (weak m) i = not (ltb_i64 m i)

abbrev pub over : Bound → ℕ → Bool
over unbounded i = true
over (strict m) i = ltb_i64 m i
over (weak m) i = not (ltb_i64 i m)

module _ (j : Json) where
  open j use {Value, is_object, is_int, is_int64, as_int, as_int64, is_member, member, member_names}

  -- A JSON value that is an integer.
  abbrev pub IsInteger : Value → ℕ → Type 0
  IsInteger v a =
      ((is_int v ≡ true) × (i32→size (as_int v) ≡ a))
      ⊎ ((is_int v ≡ false) × (is_int64 v ≡ true) × (as_int64 v ≡ a))

  abbrev pub Has : Value → List ℕ → Option ℕ → Type 0
  Has val key none = is_member val key ≡ false
  Has val key (some a) = (is_member val key ≡ true) × IsInteger (member val key) a

  -- An object with this upper bound, and with this lower one.
  abbrev pub AsksUpper : Value → Bound → Type 0
  AsksUpper val unbounded = Has val key_lt none × Has val key_lte none
  AsksUpper val (strict m) = Has val key_lt (some m) × Has val key_lte none
  AsksUpper val (weak m) = Has val key_lt none × Has val key_lte (some m)

  abbrev pub AsksLower : Value → Bound → Type 0
  AsksLower val unbounded = Has val key_gt none × Has val key_gte none
  AsksLower val (strict m) = Has val key_gt (some m) × Has val key_gte none
  AsksLower val (weak m) = Has val key_gt none × Has val key_gte (some m)

  index_integer :
      (val : Value) (key : List ℕ) (a i : ℕ) (tp : FieldType)
      → Has val key (some a)
      → try_make_index_parameter j val key i tp ≡ (numeric, a)
  unfolding try_make_index_parameter
  index_integer val key a i tp h = ground arith

  none_there :
      (val : Value) (key : List ℕ) (i : ℕ) (tp : FieldType)
      → Has val key none
      → try_make_index_parameter j val key i tp ≡ (none_type, i)
  unfolding try_make_index_parameter
  none_there val key i tp h = rw h

  module _ (val : Value) (key : List ℕ) (q : Query) where
    upper_absent : (op : TypeOperation) → Has val key none → upper_bound j key op val q ≡ q
    unfolding upper_bound
    upper_absent op h = rw (none_there val key q.max q.tp h)

    upper_there :
        (op : TypeOperation) (m : ℕ)
        → Has val key (some m)
        → upper_bound j key op val q ≡ record q { op = op; tp = numeric; max = m }
    unfolding upper_bound
    upper_there op m h = rw (index_integer val key m q.max q.tp h)

    lower_absent :
        (op : TypeOperation → TypeOperation) → Has val key none → lower_bound j key op val q ≡ q
    unfolding lower_bound
    lower_absent op h = rw (none_there val key q.min q.tp h)

    lower_there :
        (op : TypeOperation → TypeOperation) (m : ℕ)
        → Has val key (some m)
        → lower_bound j key op val q ≡ record q { op = op q.op; tp = numeric; min = m }
    unfolding lower_bound
    lower_there op m h = rw (index_integer val key m q.min q.tp h)

  -- The operation of a query with both sides, and its limits.
  abbrev op_of : Bound → Bound → TypeOperation
  op_of unbounded unbounded = compare
  op_of unbounded (strict m) = gt
  op_of unbounded (weak m) = gte
  op_of (strict m) unbounded = lt
  op_of (strict m) (strict n) = range_lt_gt
  op_of (strict m) (weak n) = range_lt_gte
  op_of (weak m) unbounded = lte
  op_of (weak m) (strict n) = range_lte_gt
  op_of (weak m) (weak n) = range_lte_gte

  abbrev limit : Bound → ℕ → ℕ
  limit unbounded d = d
  limit (strict m) d = m
  limit (weak m) d = m

  abbrev upper_op : Bound → TypeOperation
  upper_op unbounded = compare
  upper_op (strict m) = lt
  upper_op (weak m) = lte

  op_unbounded : (up : Bound) → upper_op up ≡ op_of up unbounded
  op_unbounded unbounded = refl
  op_unbounded (strict m) = refl
  op_unbounded (weak m) = refl

  op_strict : (up : Bound) (m : ℕ) → with_gt (upper_op up) ≡ op_of up (strict m)
  op_strict unbounded n = refl
  op_strict (strict m) n = refl
  op_strict (weak m) n = refl

  op_weak : (up : Bound) (m : ℕ) → with_gte (upper_op up) ≡ op_of up (weak m)
  op_weak unbounded n = refl
  op_weak (strict m) n = refl
  op_weak (weak m) n = refl

  -- The query after "$lt" and "$lte".
  uppers :
      (val : Value) (up : Bound)
      → AsksUpper val up
      → upper_bound j key_lte lte val (upper_bound j key_lt lt val new_query)
        ≡ record new_query { op = upper_op up; max = limit up (2 ^ 63 - 1) }
  uppers val unbounded u =
      rw (upper_absent val key_lt new_query lt u.0) (upper_absent val key_lte new_query lte u.1)
  uppers val (strict m) u =
      rw (upper_there val key_lt new_query lt m u.0) (upper_absent val key_lte _ lte u.1)
  uppers val (weak m) u =
      rw (upper_absent val key_lt new_query lt u.0) (upper_there val key_lte new_query lte m u.1)

  -- And after "$gt" and "$gte".
  lowers :
      (val : Value) (up low : Bound) (q : Query)
      → AsksLower val low
      → q.op ≡ upper_op up
      → q.tp ≡ numeric
      → lower_bound j key_gte with_gte val (lower_bound j key_gt with_gt val q)
        ≡ record q { op = op_of up low; tp = numeric; min = limit low q.min }
  lowers val up unbounded q l op tp =
      rw (lower_absent val key_gt q with_gt l.0, lower_absent val key_gte q with_gte l.1)
        (λ i. record q { op = (op ∙ op_unbounded up) i; tp = tp i })
  lowers val up (strict m) q l op tp = rw (lower_there val key_gt q with_gt m l.0) (
      lower_absent val key_gte _ with_gte l.1
      ∙ (λ i. record q { op = (ap with_gt op ∙ op_strict up m) i; tp = numeric; min = m }))
  lowers val up (weak m) q l op tp = rw (lower_absent val key_gt q with_gt l.0) (
      lower_there val key_gte q with_gte m l.1
      ∙ (λ i. record q { op = (ap with_gte op ∙ op_weak up m) i; tp = numeric; min = m }))

  bounds_lem :
      (val : Value) (up low : Bound)
      → AsksUpper val up
      → AsksLower val low
      → bounds j val ≡ record new_query {
        op = op_of up low;
        max = limit up (2 ^ 63 - 1);
        min = limit low (2 ^ 63);
      }
  unfolding bounds
  bounds_lem val up low u l = rw (uppers val up u) (lowers val up low _ l refl refl)

  -- What the limits of such a query let through.
  in_bounds_lem :
      (up low : Bound) (a : ℕ)
      → is_bound up || is_bound low ≡ true
      → in_bounds (op_of up low) (limit low (2 ^ 63)) (limit up (2 ^ 63 - 1)) a
        ≡ (under up a && over low a)
  unfolding in_bounds
  in_bounds_lem unbounded unbounded a h = cc
  in_bounds_lem unbounded (strict m) a h = refl
  in_bounds_lem unbounded (weak m) a h = refl
  in_bounds_lem (strict m) unbounded a h = ground arith
  in_bounds_lem (strict m) (strict n) a h = ground arith
  in_bounds_lem (strict m) (weak n) a h = ground arith
  in_bounds_lem (weak m) unbounded a h = ground arith
  in_bounds_lem (weak m) (strict n) a h = ground arith
  in_bounds_lem (weak m) (weak n) a h = ground arith

  not_compare :
      (up low : Bound) → is_bound up || is_bound low ≡ true → is_compare (op_of up low) ≡ false
  not_compare unbounded unbounded h = cc
  not_compare unbounded (strict m) h = refl
  not_compare unbounded (weak m) h = refl
  not_compare (strict m) unbounded h = refl
  not_compare (strict m) (strict n) h = refl
  not_compare (strict m) (weak n) h = refl
  not_compare (weak m) unbounded h = refl
  not_compare (weak m) (strict n) h = refl
  not_compare (weak m) (weak n) h = refl

  -- A query that is an object of bounds.
  pub record IsRange (val : Value) (up low : Bound) : Type 0 where
    pub object : is_object val ≡ true
    pub no_in : is_member val key_in ≡ false
    pub some_bound : is_bound up || is_bound low ≡ true
    pub upper : AsksUpper val up
    pub lower : AsksLower val low

  f_search_val-IsRange :
      (val : Value) (up low : Bound)
      → IsRange val up low
      → f_search_val j val ≡ record new_query {
        op = op_of up low;
        max = limit up (2 ^ 63 - 1);
        min = limit low (2 ^ 63);
      }
  unfolding f_search_val
  f_search_val-IsRange val up low h =
      rw (bounds_lem val up low h.upper h.lower, h.object, h.no_in, not_compare up low h.some_bound)

  matches-IsRange :
      (item : Value) (name : List ℕ) (a : ℕ) (up low : Bound)
      → Has item name (some a)
      → is_bound up || is_bound low ≡ true
      → matches j item name (record new_query {
        op = op_of up low;
        max = limit up (2 ^ 63 - 1);
        min = limit low (2 ^ 63);
      })
        ≡ (under up a && over low a)
  unfolding matches
  matches-IsRange item name a up low h some_bound =
      rw (index_integer item name a 0 numeric h, h.0, not_compare up low some_bound)
        (in_bounds_lem up low a some_bound)

  -- A query for one field, whose value is an object with an upper bound, a lower bound or
  -- both, each strict or not and given as an integer, and without "$in", matches a document
  -- whose field is an integer exactly if the integer is within the bounds, as a signed
  -- number.
  pub matching-f_search :
      (query item : Value) (name : List ℕ) (up low : Bound) (a : ℕ)
      → member_names query ≡ name ∷ []
      → IsRange (member query name) up low
      → Has item name (some a)
      → matching j item (f_search j query []) ≡ (under up a && over low a)
  unfolding f_search search_names matching emplace
  matching-f_search query item name up low a names range has =
      rw
        (
          names,
          f_search_val-IsRange (member query name) up low range,
          matches-IsRange item name a up low has range.some_bound,
        )
        (ground arith)
