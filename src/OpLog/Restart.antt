-- ===== src/OpLog/Restart.antt =====
-- A server that starts again finds its log as it was, unless the log was cleared of every record.
use rssdisk.Base.{
  ℕ, zero, suc, ◌+◌, ◌-◌, ◌*◌, ◌/◌, ◌%◌, ◌^◌, ◌≤◌, ◌<◌, ◌≡◌, refl, sym, ap, ◌∙◌, List, [], ◌∷◌,
  ◌++◌, true, false, Option, none, some, ltb, ◌==◌, length, take, drop, length-append, length-drop,
  drop-append_eq, drop-drop, drop_all, arith, lt→ltb, ==_iff, Bool-cases, ◌⊎◌, inl, inr,
}
use rssdisk.Bitbase.{chars_to_numeric}
use rssdisk.OpLog.{
  OpLog, Change, ssgmt, max_size, last_number, init, init_found, record_bytes, add, appended, clear,
  get, poll, poll_reply,
}
use rssdisk.OpLog.Sync.{length-record_bytes, record_bytes-number}

-- Whole records, the same in the file, and the last number in the last record.
pub record Stored (l : OpLog) : Type 0 where
  pub whole : length l.content % ssgmt ≡ 0
  pub same_file : (l.h_file ≡ some l.content) ⊎ ((l.h_file ≡ none) × (l.content ≡ []))
  pub small : l.size ≤ max_size
  pub numbered : (l.content ≡ []) ⊎ (last_number l.content ≡ l.p)

init_found-Stored : (size : ℕ) (f : Option (List ℕ)) → size ≤ max_size → Stored (init_found size f)
unfolding init_found last_number
init_found-Stored size none h = record {
  whole = refl;
  same_file = inr (refl, refl);
  small = h;
  numbered = inl refl;
}
init_found-Stored size (some c) h = elim (Bool-cases (length c % ssgmt == 0)) [
  | inl e ↦
      rw e
        (record { whole = (==_iff _ _).0 e; same_file = inl refl; small = h; numbered = inr refl })
  | inr e ↦
      rw e (record { whole = refl; same_file = inr (refl, refl); small = h; numbered = inl refl })
]

pub init-Stored : (size : ℕ) (f : Option (List ℕ)) → Stored (init size f)
unfolding init
init-Stored size f = init_found-Stored _ f (ground arith)

last_number-cons :
    (c : List ℕ)
    → 0 < length c
    → last_number c ≡ chars_to_numeric 8 (take 8 (drop (length c - ssgmt) c))
unfolding last_number
last_number-cons [] h = absurd (omega arith)
last_number-cons (x ∷ c) h = refl

-- What stands in the last 88 bytes.
last_number-append :
    (c r : List ℕ) → length r ≡ 88 → last_number (c ++ r) ≡ chars_to_numeric 8 (take 8 r)
last_number-append c r size =
    let at : length (c ++ r) - ssgmt ≡ length c = omega (arith, length-append c r) in
    last_number-cons (c ++ r) (omega (arith, length-append c r))
    ∙ rw at (rw (drop-append_eq c r (length c) refl) refl)

last_number-drop : (k : ℕ) (c : List ℕ) → k + 88 ≤ length c → last_number (drop k c) ≡ last_number c
last_number-drop k c h =
    let at : k + (length (drop k c) - ssgmt) ≡ length c - ssgmt = omega (arith, length-drop k c) in
    last_number-cons (drop k c) (omega (arith, length-drop k c))
    ∙ rw (drop-drop (length (drop k c) - ssgmt) k c, at) (sym (last_number-cons c (omega arith)))

same-appended :
    (f : Option (List ℕ)) (c a : List ℕ)
    → (f ≡ some c) ⊎ ((f ≡ none) × (c ≡ []))
    → appended f a ≡ c ++ a
unfolding appended
same-appended none c a (inl e) = cc
same-appended none c a (inr e) = rw e.1 refl
same-appended (some d) c a (inl e) = cc
same-appended (some d) c a (inr e) = cc

pub add-Stored : (c : Change) (l : OpLog) → length c.filename ≤ 64 → Stored l → Stored (add c l)
unfolding add
add-Stored c l room v =
    let p = (l.p + 1) % 2 ^ 64 in
    let size = length-record_bytes p c in
    record {
      whole = omega (arith, v.whole, length-append l.content (record_bytes p c), size);
      same_file =
          inl (ap (λ x. some x) (same-appended l.h_file l.content (record_bytes p c) v.same_file));
      small = v.small;
      numbered = inr (
          last_number-append l.content (record_bytes p c) size
          ∙ record_bytes-number p c room (omega arith));
    }

drop-nil : (k : ℕ) → drop {A = ℕ} k [] ≡ []
drop-nil zero = refl
drop-nil (suc k) = refl

-- Dropping whole records leaves nothing, or the last number.
drop-numbered :
    (k p : ℕ) (c : List ℕ)
    → (c ≡ []) ⊎ (last_number c ≡ p)
    → (k ≡ length c) ⊎ (k + 88 ≤ length c)
    → (drop k c ≡ []) ⊎ (last_number (drop k c) ≡ p)
drop-numbered k p c (inl e) h = inl (rw e (drop-nil k))
drop-numbered k p c (inr e) (inl h) = inl (drop_all c k (omega arith))
drop-numbered k p c (inr e) (inr h) = inr (last_number-drop k c h ∙ e)

pub clear-Stored : (l : OpLog) → Stored l → Stored (clear l)
unfolding clear
clear-Stored l v = elim (Bool-cases (ltb l.size (length l.content))) [
  | inl b ↦
      let k = (length l.content - l.size) / ssgmt * ssgmt in
      rw b (record {
        whole = omega (arith, v.whole, length-drop k l.content);
        same_file = inl refl;
        small = v.small;
        numbered = drop-numbered k l.p l.content v.numbered (ground (arith, v.whole));
      })
  | inr b ↦ rw b v
]

module _ (l : OpLog) (v : Stored l) (some_record : 0 < length l.content) where
  stored_file : l.h_file ≡ some l.content
  stored_file = elim v.same_file [ inl e ↦ e | inr e ↦ absurd (omega (arith, ap length e.1)) ]

  stored_number : last_number l.content ≡ l.p
  stored_number = elim v.numbered [ inl e ↦ absurd (omega (arith, ap length e)) | inr e ↦ e ]

  init_content : init l.size (some l.content) ≡ record l { h_file = some l.content }
  unfolding init init_found
  init_content =
      let size : ltb max_size l.size ≡ false = ground (arith, v.small) in
      let whole : (length l.content % ssgmt == 0) ≡ true = (==_iff _ _).1 v.whole in
      rw (size, whole, stored_number) refl

  restart : init l.size l.h_file ≡ l
  restart =
      ap (init l.size) stored_file
      ∙ init_content
      ∙ ap (λ f. record l { h_file = f }) (sym stored_file)

-- Every log that a server has: it begins with whatever file it finds.
pub data Run : OpLog → Type 0 where
  begins : (size : ℕ) (file : Option (List ℕ)) → Run (init size file)
  adds : {l : OpLog} (c : Change) → length c.filename ≤ 64 → Run l → Run (add c l)
  clears : {l : OpLog} → Run l → Run (clear l)
  restarts : {l : OpLog} → Run l → Run (init l.size l.h_file)

-- In every run of the log, whatever file it began with: the content is whole records, the file
-- holds the content or nothing, the size is at most the greatest allowed, and the last record
-- has the last number. Names have at most 64 bytes.
pub Run-Stored : {l : OpLog} → Run l → Stored l
Run-Stored (begins size file) = init-Stored size file
Run-Stored (adds {l} c room r) = add-Stored c l room (Run-Stored r)
Run-Stored (clears {l} r) = clear-Stored l (Run-Stored r)
Run-Stored (restarts {l} r) = init-Stored l.size l.h_file

-- A server that starts again, with the same size and the file that it left, has the same log
-- and the same last number, whatever file it began with and whatever was added and cleared, if
-- the log has a record left. Names have at most 64 bytes.
pub init-Run : {l : OpLog} → Run l → 0 < length l.content → init l.size l.h_file ≡ l
init-Run {l} r h = restart l (Run-Stored r) h

cleared_file :
    (l : OpLog)
    → l.size ≡ 0
    → length l.content % ssgmt ≡ 0
    → 0 < length l.content
    → (clear l).h_file ≡ some []
unfolding clear
cleared_file l none_kept whole some_record =
    let b : ltb l.size (length l.content) ≡ true = lt→ltb _ _ (omega arith) in
    let all : length l.content ≤ (length l.content - l.size) / ssgmt * ssgmt =
      omega (arith, none_kept, whole) in
    rw b (ap (λ x. some x) (drop_all l.content ((length l.content - l.size) / ssgmt * ssgmt) all))

first_after :
    (n remote : ℕ) (c : Change)
    → 0 < remote
    → ((add c (init 0 (some []))).p ≡ 1)
      × ((add c (init 0 (some []))).content ≡ record_bytes 1 c)
      × (poll n remote (add c (init 0 (some []))) ≡ some [])
unfolding poll poll_reply get add init init_found last_number
first_after n remote c newer =
    let old : ltb remote 1 ≡ false = ground arith in (refl, refl, rw old refl)

-- A log of size 0 that has some record, is cleared, and starts again, gives its next change the
-- number 1, in the one record that it then has, which begins with that number; and a client
-- that had any record is not told of that change. The name has at most 64 bytes.
pub poll-cleared :
    (n remote : ℕ) (c : Change) (l : OpLog)
    → 0 < remote
    → l.size ≡ 0
    → length l.content % ssgmt ≡ 0
    → 0 < length l.content
    → length c.filename ≤ 64
    → let l' = add c (init 0 (clear l).h_file) in
      (l'.p ≡ 1)
      × (length l'.content ≡ ssgmt)
      × (chars_to_numeric 8 (take 8 l'.content) ≡ 1)
      × (poll n remote l' ≡ some [])
poll-cleared n remote c l newer none_kept whole some_record room =
    let (number, content, silent) = first_after n remote c newer in
    rw (cleared_file l none_kept whole some_record) (
      number,
      rw content (length-record_bytes 1 c),
      rw content (record_bytes-number 1 c room (omega arith)),
      silent,
    )
