-- ===== src/OpLog.antt =====
-- rssdisk/rssdisk/hstf.cpp and hstf.h: the operation log that a server keeps for the others, and
-- the client that reads it from them. Writes to the log's file are taken to succeed, as the code does
-- not look at their result.
pub mod Sync
pub mod Restart
pub mod Examples
use rssdisk.Base.{
  ℕ, zero, suc, ◌+◌, ◌-◌, ◌*◌, ◌/◌, ◌%◌, ◌^◌, List, [], ◌∷◌, ◌++◌, Bool, true, false, Option, none,
  some, ltb, leb, ◌==◌, if◌then◌else◌, length, take, drop, replicate, substr, substr_from,
}
use rssdisk.Base.Words.{add_i32, i32→size}
use rssdisk.Bitbase.{numeric_to_chars, chars_to_numeric}

-- The bytes of one record.
abbrev pub ssgmt : ℕ
ssgmt = 88

abbrev pub max_size : ℕ
max_size = 10000000

pub record OpLog : Type 0 where
  pub size : ℕ
  pub content : List ℕ
  -- The number of the last record, a uint64_t.
  pub p : ℕ
  -- What `h_file` holds.
  pub h_file : Option (List ℕ)

-- What `add` is told, and `process` tells `remove_file_by_tms`.
pub record Change : Type 0 where
  pub filename : List ℕ
  pub tms : ℕ
  pub crc32 : ℕ

unfoldable pub last_number : List ℕ → ℕ
last_number [] = 0
last_number (x ∷ xs) = chars_to_numeric 8 (take 8 (drop (length (x ∷ xs) - ssgmt) (x ∷ xs)))

unfoldable pub init_found : ℕ → Option (List ℕ) → OpLog
unfolding last_number
init_found size none = record { size = size; content = []; p = 0; h_file = none }
init_found size (some c) =
    if length c % ssgmt == 0
    then record { size = size; content = c; p = last_number c; h_file = some c }
    else record { size = size; content = []; p = 0; h_file = none }

-- `init`, once the configuration is read.
unfoldable pub init : ℕ → Option (List ℕ) → OpLog
unfolding init_found
init size file = init_found (if ltb max_size size then max_size else size) file

-- `if (a.size() > ssgmt) a = a.substr(0, ssgmt); while (a.size() < ssgmt) a += '\0';`
unfoldable pub fit : List ℕ → List ℕ
fit a =
    let cut = (if ltb ssgmt (length a) then take ssgmt a else a) in
    cut ++ replicate (ssgmt - length cut) 0

unfoldable pub record_bytes : ℕ → Change → List ℕ
unfolding fit
record_bytes p c =
    fit
      (numeric_to_chars 8 p ++ numeric_to_chars 8 c.tms ++ numeric_to_chars 8 c.crc32 ++ c.filename)

unfoldable pub appended : Option (List ℕ) → List ℕ → List ℕ
appended none a = a
appended (some c) a = c ++ a

unfoldable pub add : Change → OpLog → OpLog
unfolding record_bytes appended
add c l =
    let p = (l.p + 1) % 2 ^ 64 in
    record l {
      content = l.content ++ record_bytes p c;
      p = p;
      h_file = some (appended l.h_file (record_bytes p c));
    }

-- Drops whole records from the front.
unfoldable pub clear : OpLog → OpLog
clear l =
    let rest = drop ((length l.content - l.size) / ssgmt * ssgmt) l.content in
    if ltb l.size (length l.content) then record l { content = rest; h_file = some rest } else l

-- The 64 bits of `content.size() - (p - c) * ssgmt` as a signed number, or 0 below it.
unfoldable pub first_byte : ℕ → OpLog → ℕ
first_byte c l =
    let from = (length l.content + 2 ^ 64 - (l.p + 2 ^ 64 - c) * ssgmt % 2 ^ 64) % 2 ^ 64 in
    if ltb from (2 ^ 63) then from else 0

-- `get`, for a client that has the records up to `c`: what stands under "d", if anything does.
unfoldable pub get : ℕ → OpLog → Option (List ℕ)
unfolding first_byte
get c l = if ltb c l.p then substr_from l.content (first_byte c l) else none

-- `filename.substr(0, filename.find('\0'))`.
unfoldable pub before_zero : List ℕ → List ℕ
before_zero [] = []
before_zero (c ∷ cs) = let rest = before_zero cs in if c == 0 then [] else c ∷ rest

-- `process`: what it calls `remove_file_by_tms` with. On a record below 24 bytes it throws.
unfoldable pub process : List ℕ → Option Change
unfolding before_zero
process v =
    if leb 24 (length v)
    then some (record {
      filename = before_zero (drop 24 v);
      tms = chars_to_numeric 8 (take 8 (drop 8 v));
      crc32 = chars_to_numeric 8 (take 8 (drop 16 v));
    })
    else none

unfoldable pub and_then : Option Change → Option (List Change) → Option (List Change)
and_then none cs = none
and_then (some c) none = none
and_then (some c) (some cs) = some (c ∷ cs)

-- `ssgmt * k` of two int32_t, wrapping as the compiled code does, and then a size_t.
abbrev pub record_start : ℕ → ℕ → ℕ
record_start sz k = i32→size (sz * k % 2 ^ 32)

-- The loop over the records of a reply, each of `sz` bytes: the calls in order. `el` is an int32_t, and
-- so is its product with the size. The loop ends before that wraps, and the records have one length, so
-- that if one throws the first does, and nothing is called.
unfoldable pub process_all : ℕ → ℕ → List ℕ → ℕ → Option (List Change)
unfolding and_then process
process_all zero sz d el = none
process_all (suc n) sz d el =
    let rest = process_all n sz d (add_i32 el 1) in
    if leb (record_start sz (add_i32 el 1)) (length d)
    then and_then (process (take (i32→size sz) (drop (record_start sz el) d))) rest
    else some []

poll_reply : ℕ → Option (List ℕ) → Option (List Change)
poll_reply n none = some []
poll_reply n (some d) = process_all n ssgmt d 0

-- One round of the client that has the records up to `c`: the calls that it makes.
unfoldable pub poll : ℕ → ℕ → OpLog → Option (List Change)
unfolding poll_reply
poll n c l = poll_reply n (get c l)
