-- ===== src/MapTime/Blocks.antt =====
-- The blocks of `deserialize`.
use native.Mathlib.Nat.{mod-eq_of_lt}
use rssdisk.Base.{
  ℕ, zero, suc, ◌+◌, ◌-◌, ◌^◌, ◌≤◌, ◌<◌, ◌≡◌, refl, ap, ◌∙◌, List, [], ◌∷◌, ◌++◌, Option, none,
  some, Eq, All, arith, length, take, drop, length-append, append_assoc, length-drop, le→leb,
  lt→ltb,
}
use rssdisk.Base.Words.{add_size, i32→size_pos}
use rssdisk.Bitbase.{numeric_to_chars, chars_to_numeric}
use rssdisk.Bitbase.RoundTrip.{length-numeric_to_chars}
use rssdisk.Bitbase.Fields.{take_field, drop_field, read_number, drop_number, length_at}
use rssdisk.MapTime.Store.{MapTime, TimedVal, deserialize_loop, deserialize, add_item}

-- A block as `serialize_function` writes it: the size in four bytes, and the body.
abbrev pub block : List ℕ → List ℕ
block b = numeric_to_chars 4 (length b) ++ b

abbrev pub blocks : List (List ℕ) → List ℕ
blocks [] = []
blocks (b ∷ bs) = block b ++ blocks bs

module _ {ℓ} {K T : Type ℓ} ⦃e : Eq K⦄ where
  abbrev pub add_all :
      (List ℕ → Option (K × TimedVal T)) → List (List ℕ) → MapTime K T → MapTime K T
  add_all f [] s = s
  add_all f (b ∷ bs) s = add_all f bs (add_item (f b) s)

  -- One round at a block of which the whole stands in the input.
  -- One round at a block of which the whole stands in the input.
  round :
      (f : List ℕ → Option (K × TimedVal T)) (d : List ℕ) (start fuel : ℕ) (s : MapTime K T)
      (b more : List ℕ)
      → drop start d ≡ numeric_to_chars 4 (length b) ++ (b ++ more)
      → start + 4 + length b ≤ length d
      → length b < 2 ^ 31
      → length d < 2 ^ 63
      → deserialize_loop (suc fuel) f d start s
        ≡ deserialize_loop fuel f d (start + 4 + length b) (add_item (f b) s)
  unfolding deserialize_loop
  round f d start fuel s b more at room hb hd =
      let size : chars_to_numeric 4 (take 4 (drop start d)) ≡ length b =
        read_number 4 4 (length b) start d (b ++ more) at (omega arith) (omega arith) in
      let body : take (length b) (drop (start + 4) d) ≡ b =
        take_field (start + 4) (length b) d b more
          (drop_number 4 4 (length b) start d (b ++ more) at) refl in
      let next : add_size (start + 4) (length b) ≡ start + 4 + length b =
        mod-eq_of_lt (omega arith) in
      rw (
        size,
        i32→size_pos (length b) hb,
        next,
        body,
        le→leb (start + 4) (length d) (omega arith),
        le→leb (start + 4 + length b) (length d) room,
      )

  -- At the end of the input the loop stops.
  stops :
      (f : List ℕ → Option (K × TimedVal T)) (d : List ℕ) (start fuel : ℕ) (s : MapTime K T)
      → length d < start + 4
      → deserialize_loop (suc fuel) f d start s ≡ some s
  unfolding deserialize_loop
  stops f d start fuel s h = ground arith

  deserialize_loop-blocks :
      (f : List ℕ → Option (K × TimedVal T)) (d : List ℕ) (bs : List (List ℕ)) (start fuel : ℕ)
      (s : MapTime K T)
      → drop start d ≡ blocks bs
      → start ≤ length d
      → All (λ b. length b < 2 ^ 31) bs
      → length d < 2 ^ 63
      → length bs < fuel
      → deserialize_loop fuel f d start s ≡ some (add_all f bs s)
  deserialize_loop-blocks f d bs start zero s at room hb hd hf = absurd (omega arith)
  deserialize_loop-blocks f d [] start (suc fuel) s at room hb hd hf =
      stops f d start fuel s (omega (arith, ap length at, length-drop start d))
  deserialize_loop-blocks f d (b ∷ bs) start (suc fuel) s at room hb hd hf =
      let at' : drop start d ≡ numeric_to_chars 4 (length b) ++ (b ++ blocks bs) =
        at ∙ append_assoc (numeric_to_chars 4 (length b)) b (blocks bs) in
      let left : drop (start + 4 + length b) d ≡ blocks bs =
        drop_field (start + 4) (length b) d b (blocks bs)
          (drop_number 4 4 (length b) start d (b ++ blocks bs) at') refl in
      let fits : start + 4 + length b ≤ length d = omega (
        arith,
        length_at start d (numeric_to_chars 4 (length b)) (b ++ blocks bs) at',
        length-numeric_to_chars 4 (length b),
        length-append b (blocks bs),
      ) in
      round f d start fuel s b (blocks bs) at' fits hb.0 hd
      ∙ deserialize_loop-blocks f d bs (start + 4 + length b) fuel (add_item (f b) s) left fits hb.1
          hd (omega arith)

  -- A string of blocks, of more than 4 and less than 2 ^ 63 bytes and with blocks below 2 ^
  -- 31 bytes, is taken block by block, and more rounds than blocks are enough.
  pub deserialize-blocks :
      (f : List ℕ → Option (K × TimedVal T)) (bs : List (List ℕ)) (fuel : ℕ) (s : MapTime K T)
      → 4 < length (blocks bs)
      → All (λ b. length b < 2 ^ 31) bs
      → length (blocks bs) < 2 ^ 63
      → length bs < fuel
      → deserialize fuel (some f) (blocks bs) s ≡ some (add_all f bs s)
  unfolding deserialize
  deserialize-blocks f bs fuel s big hb hd hf =
      rw (lt→ltb 4 (length (blocks bs)) big)
        (deserialize_loop-blocks f (blocks bs) bs 0 fuel s refl (omega arith) hb hd hf)

  loop_diverges :
      (f : List ℕ → Option (K × TimedVal T)) (d : List ℕ) (fuel : ℕ) (s : MapTime K T)
      → 4 ≤ length d
      → chars_to_numeric 4 (take 4 d) ≡ 2 ^ 32 - 4
      → deserialize_loop fuel f d 0 s ≡ none
  unfolding deserialize_loop
  loop_diverges f d zero s big size = refl
  loop_diverges f d (suc fuel) s big size =
      rw (size, le→leb 4 (length d) big, le→leb 0 (length d) (omega arith))
        (loop_diverges f d fuel (add_item (f (take (2 ^ 64 - 4) (drop 4 d))) s) big size)

  -- On a string of more than 4 bytes whose first block claims the size -4, `deserialize` ends
  -- within no number of rounds.
  pub deserialize_diverges :
      (f : List ℕ → Option (K × TimedVal T)) (d : List ℕ) (fuel : ℕ) (s : MapTime K T)
      → 4 < length d
      → chars_to_numeric 4 (take 4 d) ≡ 2 ^ 32 - 4
      → deserialize fuel (some f) d s ≡ none
  unfolding deserialize
  deserialize_diverges f d fuel s big size =
      rw (lt→ltb 4 (length d) big) (loop_diverges f d fuel s (omega arith) size)
