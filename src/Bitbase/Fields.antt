-- ===== src/Bitbase/Fields.antt =====
-- Reading one field of a packed string at a position, given what stands from there on.
use rssdisk.Base.{
  ℕ, ◌+◌, ◌-◌, ◌≤◌, ◌<◌, ◌≡◌, sym, ap, ◌∙◌, List, ◌++◌, length, length-append, take, drop,
  take-append_eq, drop-append_eq, drop-drop, length-drop,
}
use rssdisk.Bitbase.{numeric_to_chars, chars_to_numeric, radix}
use rssdisk.Bitbase.RoundTrip.{length-numeric_to_chars, chars_to_numeric-numeric_to_chars}

module _ {ℓ} {A : Type ℓ} (pos n : ℕ) (d b rest : List A) (at : drop pos d ≡ b ++ rest)
    (size : n ≡ length b) where
  -- `d.substr(pos, n)` where `b` stands, and what stands behind it.
  pub take_field : take n (drop pos d) ≡ b
  take_field = rw at (take-append_eq b rest n size)

  pub drop_field : drop (pos + n) d ≡ rest
  drop_field = sym (drop-drop n pos d) ∙ ap (drop n) at ∙ drop-append_eq b rest n size

-- How much is left of the string, as what stands there tells.
pub length_at {ℓ} :
    {A : Type ℓ} (pos : ℕ) (d b rest : List A)
    → drop pos d ≡ b ++ rest
    → length d - pos ≡ length b + length rest
length_at pos d b rest at = sym (length-drop pos d) ∙ ap length at ∙ length-append b rest

module _ (w k n pos : ℕ) (d rest : List ℕ) (at : drop pos d ≡ numeric_to_chars k n ++ rest) where
  pub read_number : k ≤ w → n < radix k → chars_to_numeric w (take k (drop pos d)) ≡ n
  read_number h fits =
      ap (chars_to_numeric w)
        (take_field pos k d (numeric_to_chars k n) rest at (sym (length-numeric_to_chars k n)))
      ∙ chars_to_numeric-numeric_to_chars w k n h fits

  pub drop_number : drop (pos + k) d ≡ rest
  drop_number =
      drop_field pos k d (numeric_to_chars k n) rest at (sym (length-numeric_to_chars k n))

-- The same where the next position is given by another term.
pub next_number :
    (k n pos m : ℕ) (d rest : List ℕ)
    → drop pos d ≡ numeric_to_chars k n ++ rest
    → m ≡ pos + k
    → drop m d ≡ rest
next_number k n pos m d rest at e = rw e (drop_number k k n pos d rest at)
