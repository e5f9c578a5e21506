-- ===== src/OpLog/Sync.antt =====
-- What a client reads of the log is what was added since it asked last.
use native.Mathlib.Nat.{mod-eq_of_lt}
use rssdisk.Base.{
  ℕ, ◌+◌, ◌-◌, ◌*◌, ◌%◌, ◌^◌, ◌≤◌, ◌<◌, ◌≡◌, refl, ap, ◌∙◌, List, [], ◌∷◌, ◌++◌, true, false, some,
  ltb, leb, if◌then◌else◌, length, take, replicate, All, length-append, length-take,
  length-replicate, drop-append_eq, arith, lt→ltb, le→leb, append_assoc, append-nil,
}
use rssdisk.Bitbase.{numeric_to_chars, chars_to_numeric, radix}
use rssdisk.Bitbase.RoundTrip.{length-numeric_to_chars}
use rssdisk.Bitbase.Fields.{read_number}
use rssdisk.OpLog.{OpLog, Change, ssgmt, record_bytes, fit, add, get, first_byte}

-- A name that a record has room for, and integers of eight bytes.
pub record IsChange (c : Change) : Type 0 where
  pub room : length c.filename ≤ 64
  pub no_zero : All (λ x. 0 < x) c.filename
  pub tms_fits : c.tms < radix 8
  pub crc32_fits : c.crc32 < radix 8

padded : List ℕ → List ℕ
padded a = a ++ replicate (88 - length a) 0

length-padded : (a : List ℕ) → length a ≤ 88 → length (padded a) ≡ 88
unfolding padded
length-padded a h =
    let z : List ℕ = replicate (88 - length a) 0 in
    let e : length z ≡ 88 - length a = length-replicate (88 - length a) 0 in
    omega (arith, length-append a z)

length-cut : (n : ℕ) (a : List ℕ) → length (if ltb n (length a) then take n a else a) ≤ n
length-cut n a = ground (arith, length-take n a)

fit_cut : (a : List ℕ) → fit a ≡ padded (if ltb ssgmt (length a) then take ssgmt a else a)
unfolding fit padded
fit_cut a = refl

length-fit : (a : List ℕ) → length (fit a) ≡ 88
length-fit a =
    rw (fit_cut a)
      (length-padded (if ltb ssgmt (length a) then take ssgmt a else a) (length-cut ssgmt a))

pub length-record_bytes : (p : ℕ) (c : Change) → length (record_bytes p c) ≡ 88
unfolding record_bytes
length-record_bytes p c =
    length-fit
      (numeric_to_chars 8 p ++ numeric_to_chars 8 c.tms ++ numeric_to_chars 8 c.crc32 ++ c.filename)

fit_short : (a : List ℕ) → length a ≤ 88 → fit a ≡ padded a
fit_short a h = let e : ltb ssgmt (length a) ≡ false = ground arith in fit_cut a ∙ rw e refl

module _ (p : ℕ) (c : Change) where
  room_left : List ℕ
  room_left = replicate (64 - length c.filename) 0

  length-fields :
      length (
        numeric_to_chars 8 p
        ++ numeric_to_chars 8 c.tms
        ++ numeric_to_chars 8 c.crc32
        ++ c.filename)
      ≡ 24 + length c.filename
  length-fields =
      simp
        (
          length-append,
          length-numeric_to_chars 8 p,
          length-numeric_to_chars 8 c.tms,
          length-numeric_to_chars 8 c.crc32,
        )
        (omega arith)

  -- A record is its four fields one after another.
  fields :
      length c.filename ≤ 64
      → record_bytes p c
        ≡ numeric_to_chars 8 p
          ++ (numeric_to_chars 8 c.tms ++ (numeric_to_chars 8 c.crc32 ++ (c.filename ++ room_left)))
  unfolding record_bytes padded room_left
  fields h =
      fit_short
        (numeric_to_chars 8 p
          ++ numeric_to_chars 8 c.tms
          ++ numeric_to_chars 8 c.crc32
          ++ c.filename)
        (omega (arith, length-fields))
      ∙ (let e : 88
                - length (
                    numeric_to_chars 8 p
                    ++ numeric_to_chars 8 c.tms
                    ++ numeric_to_chars 8 c.crc32
                    ++ c.filename)
              ≡ 64 - length c.filename =
            omega (arith, length-fields) in
          rw e (simp append_assoc))

-- A record begins with its number.
pub record_bytes-number :
    (p : ℕ) (c : Change)
    → length c.filename ≤ 64
    → p < 2 ^ 64
    → chars_to_numeric 8 (take 8 (record_bytes p c)) ≡ p
record_bytes-number p c room h =
    read_number 8 8 p 0 (record_bytes p c) _ (fields p c room) (omega arith) (omega arith)

pub record_list : ℕ → List Change → List ℕ
record_list p [] = []
record_list p (c ∷ cs) = record_bytes (p + 1) c ++ record_list (p + 1) cs

-- `add`, change after change.
unfoldable pub add_all : List Change → OpLog → OpLog
add_all [] l = l
add_all (c ∷ cs) l = add_all cs (add c l)

pub record Added (l l' : OpLog) (cs : List Change) : Type 0 where
  pub content_eq : l'.content ≡ l.content ++ record_list l.p cs
  pub p_eq : l'.p ≡ l.p + length cs
  pub size_eq : l'.size ≡ l.size

pub add_all_lem :
    (cs : List Change) (l : OpLog) → l.p + length cs < 2 ^ 64 → Added l (add_all cs l) cs
unfolding add_all record_list add
add_all_lem [] l h = record { content_eq = simp append-nil; p_eq = omega arith; size_eq = refl }
add_all_lem (c ∷ cs) l h =
    let small : (l.p + 1) % 2 ^ 64 ≡ l.p + 1 = mod-eq_of_lt (omega arith) in
    let rest = add_all_lem cs (add c l) (omega (arith, small)) in
    record {
      content_eq =
          rest.content_eq
          ∙ rw small (append_assoc l.content (record_bytes (l.p + 1) c) (record_list (l.p + 1) cs));
      p_eq = rest.p_eq ∙ omega (arith, small);
      size_eq = rest.size_eq;
    }

module _ (l : OpLog) (c k : ℕ) (front back : List ℕ) (e : l.content ≡ front ++ back)
    (size : length back ≡ 88 * k) (last : l.p ≡ c + k) (h : l.p < 2 ^ 64)
    (fits : length l.content < 2 ^ 63) where
  content_length : length l.content ≡ length front + 88 * k
  content_length = rw e (omega (arith, length-append front back))

  first_byte_lem : first_byte c l ≡ length front
  unfolding first_byte
  first_byte_lem =
      let from : (length l.content + 2 ^ 64 - (l.p + 2 ^ 64 - c) * ssgmt % 2 ^ 64) % 2 ^ 64
          ≡ length front =
        omega (arith, content_length) in
      let below : ltb (length front) (2 ^ 63) ≡ true = lt→ltb _ _ (omega (arith, content_length)) in
      rw (from, below) refl

  -- A client that lacks `k` records is sent the last `k` of the log.
  pub get-tail : 0 < k → get c l ≡ some back
  unfolding get
  get-tail some_new =
      let newer : ltb c l.p ≡ true = lt→ltb _ _ (omega arith) in
      let inside : leb (length front) (length l.content) ≡ true =
        le→leb _ _ (omega (arith, content_length)) in
      rw (newer, first_byte_lem, inside, e)
        (ap (λ x. some x) (drop-append_eq front back (length front) refl))
