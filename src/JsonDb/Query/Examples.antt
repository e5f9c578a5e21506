-- ===== src/JsonDb/Query/Examples.antt =====
-- A query for a field of at least 20 and less than 30, and a document with 25 there.
use rssdisk.Base.{
  ℕ, ◌≡◌, refl, List, [], ◌∷◌, Bool, true, false, not, ◌&&◌, none, bytes_eq, if◌then◌else◌, inr,
}
use rssdisk.JsonDb.Query.{Json, f_search, matching, key_lt, key_gte}
use rssdisk.JsonDb.Query.Bounds.{strict, weak, under, over, IsRange, matching-f_search}

-- JSON values as far as this query goes: numbers, and objects by their fields.
data Value : Type 0 where
  number : ℕ → Value
  end : Value
  field : List ℕ → Value → Value → Value

abbrev is_number : Value → Bool
is_number (number n) = true
is_number end = false
is_number (field k v w) = false

abbrev as_number : Value → ℕ
as_number (number n) = n
as_number end = 0
as_number (field k v w) = 0

abbrev names : Value → List (List ℕ)
names (number n) = []
names end = []
names (field k v w) = k ∷ names w

abbrev has_field : Value → List ℕ → Bool
has_field (number n) key = false
has_field end key = false
has_field (field k v w) key = if bytes_eq k key then true else has_field w key

abbrev get_field : Value → List ℕ → Value
get_field (number n) key = end
get_field end key = end
get_field (field k v w) key = if bytes_eq k key then v else get_field w key

abbrev json : Json
json = record {
  Value = Value;
  is_object = λ v. not (is_number v);
  is_array = λ v. false;
  is_string = λ v. false;
  is_int = λ v. false;
  is_int64 = is_number;
  as_int = as_number;
  as_int64 = as_number;
  is_member = has_field;
  member = get_field;
  member_names = names;
  items = λ v. [];
  to_string = λ v. [];
  is_bool = λ v. false;
  as_bool = λ v. false;
  as_string = λ v. [];
  null = end;
  parse = λ s. none;
  epoch = λ part s. none;
  hash = λ s. 0;
}

abbrev range : Value
range = field key_gte (number 20) (field key_lt (number 30) end)

abbrev query : Value
query = field (97 ∷ []) range end

abbrev item : Value
item = field (98 ∷ []) (number 3) (field (97 ∷ []) (number 25) end)

range-IsRange : IsRange json range (strict 30) (weak 20)
range-IsRange = record {
  object = refl;
  no_in = refl;
  some_bound = refl;
  upper = ((refl, inr (refl, refl, refl)), refl);
  lower = (refl, (refl, inr (refl, refl, refl)));
}

matching-f_search_example :
    matching json item (f_search json query []) ≡ (under (strict 30) 25 && over (weak 20) 25)
matching-f_search_example =
    matching-f_search json query item (97 ∷ []) (strict 30) (weak 20) 25 refl range-IsRange
      (refl, inr (refl, refl, refl))
