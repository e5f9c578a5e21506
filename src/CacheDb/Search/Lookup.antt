-- ===== src/CacheDb/Search/Lookup.antt =====
-- A client that reads the answer to a search has what the server found.
use mathlib.Core.Option
use rssdisk.Base.{
  ℕ, ◌^◌, ◌<◌, ◌≡◌, refl, sym, ap, ◌∙◌, true, false, List, [], ◌∷◌, ◌++◌, Option, none, some, arith,
  ltb, length, length-append, drop-append_eq, All, bytes, bytes_eq, bytes_eq_iff, keep_if,
  Bool-cases, inl, inr,
}
use rssdisk.Base.Kept.{passed, find-keep_if, IsDistinct-keep_if, All-keep_if, length-keep_if}
use rssdisk.Base.Dict.{find, assign, find-assign, IsDistinct}
use rssdisk.Bitbase.{numeric_to_chars}
use rssdisk.Bitbase.RoundTrip.{length-numeric_to_chars}
use rssdisk.MapTime.{Clock, TimedVal, steady_clock_to_time_t}
use rssdisk.MapTime
use rssdisk.CacheDb.Manager.{Item, DataStore}
use rssdisk.CacheDb.Persist.{Entry, IsStorable}
use rssdisk.JsonDb.Query.{Json}
use rssdisk.CacheDb.Search.{
  OutFormat, Read, parsed, add_read, parse_answer, parse_answers, parse_cdb_all, entry_record,
  found_records, is_found, read_search, search_all, Search,
}
use rssdisk.CacheDb.Search.Records.{records, fresh_of, add_reads, parse_loop-records}

module _ (j : Json) (decompress_string : List ℕ → List ℕ) (tms_value : ℕ → j.Value)
    (c : Clock) where
  found_records-keep_if :
      (s : Search) (m : List Entry)
      → found_records j decompress_string tms_value c s m
        ≡ records c (keep_if (is_found j decompress_string tms_value s) m)
  unfolding found_records
  found_records-keep_if s [] = refl
  found_records-keep_if s (e ∷ m) = elim (Bool-cases (is_found j decompress_string tms_value s e)) [
    | inl t ↦ rw t (ap (λ r. entry_record c e ++ r) (found_records-keep_if s m))
    | inr t ↦ rw t (found_records-keep_if s m)
  ]

module _ {ℓ} {V : Type ℓ} (parse : List ℕ → Option V) (decompress_string : List ℕ → List ℕ)
    (frm : OutFormat) (c : Clock) (ip : ℕ) where
  -- What the client has of an entry that this server alone answered.
  abbrev pub read_of : TimedVal Item → Read V
  read_of v = record (fresh_of parse decompress_string frm c ip v) { readed = ip ∷ [] }

  abbrev else_in : Option (TimedVal Item) → Option (Read V) → Option (Read V)
  else_in none o = o
  else_in (some v) o = some (read_of v)

  else_in-map : (o : Option (TimedVal Item)) → else_in o none ≡ Option.map read_of o
  else_in-map none = refl
  else_in-map (some v) = refl

  -- No entry has a key that is there already.
  abbrev AreNew : List (List ℕ × Read V) → List Entry → Type ℓ
  AreNew all = All λ e. find e.0 all ≡ none

  AreNew-assign :
      (key : List ℕ) (v : Read V) (all : List (List ℕ × Read V)) (es : List Entry)
      → find key es ≡ none
      → AreNew all es
      → AreNew (assign key v all) es
  unfolding find
  AreNew-assign key v all [] h new = tt
  AreNew-assign key v all ((i, w) ∷ es) h new = elim (Bool-cases (bytes_eq i key)) [
    | inl e ↦ absurd (ground (arith, e, h))
    | inr e ↦
        let e' : bytes_eq key i ≡ false =
          ground (arith, e, bytes_eq_iff i key, bytes_eq_iff key i) in
        (
          find-assign key i v all ∙ rw e' new.0,
          AreNew-assign key v all es (ground (arith, e, h)) new.1,
        )
  ]

  find-add_reads :
      (k : List ℕ) (es : List Entry) (all : List (List ℕ × Read V))
      → IsDistinct es
      → AreNew all es
      → find k (add_reads parse decompress_string frm c ip es all)
        ≡ else_in (find k es) (find k all)
  unfolding find add_read
  find-add_reads k [] all d new = refl
  find-add_reads k ((i, v) ∷ es) all d new = rw new.0 (
      find-add_reads k es (assign i (read_of v) all) d.1
        (AreNew-assign i (read_of v) all es d.0 new.1)
      ∙ rw (find-assign i k (read_of v) all) (elim (Bool-cases (bytes_eq i k)) [
        | inl e ↦
            let same : i ≡ k = (bytes_eq_iff i k).0 e in
            let gone : find k es ≡ none = ap (λ x. find x es) (sym same) ∙ d.0 in rw (e, gone) refl
        | inr e ↦ rw e refl
      ]))

  AreNew-nil : (es : List Entry) → AreNew [] es
  unfolding find
  AreNew-nil [] = tt
  AreNew-nil (e ∷ es) = (refl, AreNew-nil es)

  length-records_pos :
      (e : Entry) (es : List Entry) → IsStorable e → 32 < length (records c (e ∷ es))
  unfolding entry_record
  length-records_pos (k, v) es ok =
      simp (length-append, length-numeric_to_chars) (omega (arith, ok.content_pos))

  parse_cdb_all-records :
      (fuel t : ℕ) (es : List Entry)
      → length es < fuel
      → length (numeric_to_chars 8 t ++ records c es) < 2 ^ 60
      → All IsStorable es
      → parse_cdb_all parse decompress_string frm fuel
          ((ip, numeric_to_chars 8 t ++ records c es) ∷ [])
        ≡ parsed (add_reads parse decompress_string frm c ip es [])
  unfolding parse_cdb_all parse_answers parse_answer
  parse_cdb_all-records fuel t [] enough small ok =
      let none_there : ltb 40 (length (numeric_to_chars 8 t ++ [])) ≡ false =
        ground (arith, length-append (numeric_to_chars 8 t) [], length-numeric_to_chars 8 t) in
      rw none_there refl
  parse_cdb_all-records fuel t (e ∷ es) enough small ok =
      let rs = records c (e ∷ es) in
      let size = length-append (numeric_to_chars 8 t) rs in
      let eight = length-numeric_to_chars 8 t in
      let there : ltb 40 (length (numeric_to_chars 8 t ++ rs)) ≡ true =
        ground (arith, size, eight, length-records_pos e es ok.0) in
      rw there (
        parse_loop-records parse decompress_string frm c ip fuel (numeric_to_chars 8 t ++ rs) 8
          (e ∷ es) [] enough small (omega (arith, size, eight)) ok
          (drop-append_eq (numeric_to_chars 8 t) rs 8 (sym eight)))

-- A client that reads one server's answer to a search by any text has, under each key, what the
-- server has there, if the search finds it, and nothing else. The keys are all different, the
-- entries can be written, the rounds are more than the entries, and the answer is smaller than
-- 2 ^ 60 bytes.
pub find-parse_cdb_all-search_all {ℓ} :
    {V : Type ℓ} (j : Json) (z : List ℕ → List ℕ) (tms_value : ℕ → j.Value)
    (parse : List ℕ → Option V) (frm : OutFormat) (c : Clock) (ip fuel : ℕ) (sought : List ℕ)
    (store : DataStore)
    → IsDistinct store.map
    → All IsStorable store.map
    → length store.map < fuel
    → length (search_all j z tms_value c sought store) < 2 ^ 60
    → (r : List (List ℕ × Read V)) × (parse_cdb_all parse z frm fuel
          ((ip, search_all j z tms_value c sought store) ∷ [])
        ≡ parsed r)
      × ((k : List ℕ)
          → find k r
            ≡ Option.map (read_of parse z frm c ip) (
                passed
                  (is_found j z tms_value (read_search j z tms_value sought))
                  k
                  (find k store.map)))
unfolding search_all MapTime.get_all find
find-parse_cdb_all-search_all j z tms_value parse frm c ip fuel sought store distinct ok enough
      small =
    let p = is_found j z tms_value (read_search j z tms_value sought) in
    let es = keep_if p store.map in
    let e = found_records-keep_if j z tms_value c (read_search j z tms_value sought) store.map in
    let now = steady_clock_to_time_t c c.steady in
    (
      add_reads parse z frm c ip es [],
      rw e (
          parse_cdb_all-records parse z frm c ip fuel now es
            (omega (arith, enough, length-keep_if p store.map))
            (omega (arith, small, ap (λ x. length (numeric_to_chars 8 now ++ x)) e))
            (All-keep_if p IsStorable store.map ok)),
      λ k.
          find-add_reads parse z frm c ip k es [] (IsDistinct-keep_if p store.map distinct)
            (AreNew-nil parse z frm c ip es)
          ∙ ap (λ o. else_in parse z frm c ip o none) (find-keep_if p k store.map distinct)
          ∙ else_in-map parse z frm c ip (passed p k (find k store.map)),
    )
