-- ===== src/CacheDb/Ends.antt =====
-- Whether the loop of `CDatabaseManager::insert` ends.
use rssdisk.Base.{
  ℕ, zero, suc, ◌+◌, ◌-◌, ◌^◌, ◌≤◌, ◌<◌, ◌≡◌, ◌≢◌, refl, inl, inr, true, false, List, [], ◌∷◌, none,
  ltb, leb, if◌then◌else◌, length, arith, Bool-cases, lt→ltb, ltb→lt, le→leb,
}
use rssdisk.Base.Words.{add_i32, i32→size}
use rssdisk.MapTime.{Clock}
use rssdisk.CacheDb.Manager.{
  DataStore, Cursor, insert, insert_loop, insert_round, apply_record, number_at, Item, key_at,
  item_at, ttl_at, after_content,
}

-- Nowhere in the message do four bytes stand that read as a negative int32_t.
abbrev pub HasNoNegative : List ℕ → Type 0
HasNoNegative d = (p : ℕ) → number_at 4 d p < 2 ^ 31

pos-apply_record :
    (c : Clock) (k : List ℕ) (i : Item) (ttl : ℕ) (cur : Cursor)
    → (apply_record c k i ttl cur).pos ≡ cur.pos
unfolding apply_record
pos-apply_record c [] i ttl cur = refl
pos-apply_record c (b ∷ k) i ttl cur = refl

-- The position after a round, from the two sizes and the length of the message.
abbrev next_pos : ℕ → ℕ → ℕ → ℕ → ℕ
next_pos from header content n =
    if leb (i32→size (add_i32 from header)) n
    then if leb (i32→size (add_i32 (add_i32 from header) content)) n
      then add_i32 (add_i32 from header) content
      else add_i32 from header
    else from

pos-insert_round :
    (c : Clock) (d : List ℕ) (cur : Cursor)
    → (insert_round c d cur).pos
      ≡ next_pos
          (add_i32 cur.pos 28)
          (number_at 4 d (add_i32 cur.pos 20))
          (number_at 4 d (add_i32 cur.pos 24))
          (length d)
unfolding insert_round
pos-insert_round c d cur = ground (
  arith,
  pos-apply_record c (key_at d cur.pos) (item_at d cur.pos) (ttl_at d cur.pos)
      (record cur { pos = after_content d cur.pos }),
)

next_pos_grows :
    (from header content n : ℕ)
    → header < 2 ^ 31
    → content < 2 ^ 31
    → from < 2 ^ 31
    → from ≤ n
    → n < 2 ^ 63
    → (from ≤ next_pos from header content n)
      × (next_pos from header content n ≤ n)
      × (next_pos from header content n < 2 ^ 31)
next_pos_grows from header content n hh hc hf hle hn = ground arith

fixed_part :
    (pos n : ℕ)
    → pos < 2 ^ 31
    → i32→size (add_i32 pos 28) < n
    → n < 2 ^ 63
    → (add_i32 pos 28 ≡ pos + 28) × (pos + 28 < 2 ^ 31) × (pos + 28 < n)
fixed_part pos n h lt hn = ground arith

-- A round moves on, and stays inside.
insert_round-moves :
    (c : Clock) (d : List ℕ) (cur : Cursor)
    → HasNoNegative d
    → cur.pos < 2 ^ 31
    → i32→size (add_i32 cur.pos 28) < length d
    → length d < 2 ^ 63
    → (cur.pos < (insert_round c d cur).pos)
      × ((insert_round c d cur).pos ≤ length d)
      × ((insert_round c d cur).pos < 2 ^ 31)
insert_round-moves c d cur hn hp h hd =
    let (e, small, inside) = fixed_part cur.pos (length d) hp h hd in
    let inside_le : cur.pos + 28 ≤ length d = omega arith in
    let grows =
      next_pos_grows (cur.pos + 28) (number_at 4 d (add_i32 cur.pos 20))
        (number_at 4 d (add_i32 cur.pos 24)) (length d) (hn (add_i32 cur.pos 20))
        (hn (add_i32 cur.pos 24)) small inside_le hd in
    rw (pos-insert_round c d cur, e) (omega (arith, grows.0), grows.1, grows.2)

insert_loop-ends :
    (fuel : ℕ) (c : Clock) (d : List ℕ) (cur : Cursor)
    → HasNoNegative d
    → length d < 2 ^ 63
    → cur.pos < 2 ^ 31
    → cur.pos ≤ length d
    → length d < cur.pos + fuel
    → insert_loop fuel c d cur ≢ none
unfolding insert_loop
insert_loop-ends zero c d cur hn hd hp hle hf = absurd (omega arith)
insert_loop-ends (suc fuel) c d cur hn hd hp hle hf =
    elim (Bool-cases (ltb (i32→size (add_i32 cur.pos 28)) (length d))) [
      | inl more ↦
          let (moves, inside, small) = insert_round-moves c d cur hn hp (ltb→lt _ _ more) hd in
          rw more
            (insert_loop-ends fuel c d (insert_round c d cur) hn hd small inside (omega arith))
      | inr done ↦ rw done (λ e. cc)
    ]

-- On a message of less than 2 ^ 63 bytes in which no four bytes read as a negative number, the
-- loop of `insert` ends within as many rounds as the message has bytes.
pub insert_ends :
    (fuel : ℕ) (c : Clock) (d : List ℕ) (s : DataStore)
    → HasNoNegative d
    → length d < 2 ^ 63
    → length d < fuel
    → insert fuel c d s ≢ none
unfolding insert
insert_ends fuel c d s hn hd hf =
    insert_loop-ends fuel c d (record { pos = 0; ok = false; store = s }) hn hd (omega arith)
      (omega arith) (omega arith)

-- A record whose key size is -28 and whose content size is 0 sends the loop back to its start.
insert_loop_diverges :
    (fuel : ℕ) (c : Clock) (d : List ℕ) (cur : Cursor)
    → 28 < length d
    → number_at 4 d 20 ≡ 2 ^ 32 - 28
    → number_at 4 d 24 ≡ 0
    → cur.pos ≡ 0
    → insert_loop fuel c d cur ≡ none
unfolding insert_loop
insert_loop_diverges zero c d cur h k n p = refl
insert_loop_diverges (suc fuel) c d cur h k n p =
    let again : (insert_round c d cur).pos ≡ 0 =
      rw (pos-insert_round c d cur, p, k, n, le→leb 0 (length d) (omega arith)) in
    let more : ltb (i32→size (add_i32 cur.pos 28)) (length d) ≡ true =
      rw p (lt→ltb 28 (length d) h) in
    rw more (insert_loop_diverges fuel c d (insert_round c d cur) h k n again)

-- On a message of more than 28 bytes whose first record has key size -28 and content size 0,
-- `insert` ends within no number of rounds.
pub insert_diverges :
    (fuel : ℕ) (c : Clock) (d : List ℕ) (s : DataStore)
    → 28 < length d
    → number_at 4 d 20 ≡ 2 ^ 32 - 28
    → number_at 4 d 24 ≡ 0
    → insert fuel c d s ≡ none
unfolding insert
insert_diverges fuel c d s h k n =
    insert_loop_diverges fuel c d (record { pos = 0; ok = false; store = s }) h k n refl
