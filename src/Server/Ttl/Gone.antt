-- ===== src/Server/Ttl/Gone.antt =====
-- A list of files to remove leaves none of them, and all others.
use native.Mathlib.Decide.{dec_lt}
use rssdisk.Base.{
  ap, ◌+◌, ◌-◌, ◌%◌, ◌^◌, ℕ, ◌≤◌, ◌<◌, ◌≡◌, refl, List, [], ◌∷◌, ◌++◌, Bool, true, false, ◌&&◌,
  ◌||◌, not, none, some, ◌==◌, if◌then◌else◌, length, All, bytes, bytes_eq, bytes_eq_iff, arith,
  ◌⊎◌, inl, inr, Bool-cases,
}
use rssdisk.Base.Dict.{find, erase, find-erase, get_or}
use rssdisk.Server.Disk.{Files, read_file}
use rssdisk.Server.Message.{Server, j_extension_name}
use rssdisk.Server.Ttl.{
  split, trim, join_parts, directory_path, find_path, charge_less, remove_item, is_in, remove_items,
  clear_list,
}

-- The file, or its database file.
abbrev pub belongs_to : List ℕ → List ℕ → Bool
belongs_to item j = bytes_eq item j || bytes_eq (item ++ j_extension_name) j

unfoldable pub is_listed : List ℕ → List (List ℕ) → Bool
is_listed j [] = false
is_listed j (line ∷ lines) =
    (not (length (trim line) == 0) && belongs_to (trim line) j) || is_listed j lines

-- An empty line, or a path of two parts or more.
abbrev pub IsItem : List ℕ → Type 0
IsItem line = (length (trim line) ≡ 0) ⊎ (2 ≤ length (split 47 (trim line)))

join_parts-some :
    (ps : List (List ℕ)) (n : ℕ) → n ≤ length ps → (r : List ℕ) × (join_parts ps n ≡ some r)
unfolding join_parts
join_parts-some [] n h = let z : (n == 0) ≡ true = ground arith in ([], rw z refl)
join_parts-some (p ∷ ps) n h = elim (Bool-cases (n == 0)) [
  | inl z ↦ ([], rw z refl)
  | inr z ↦
      let (r, e) = join_parts-some ps (n - 1) (omega (arith, h)) in
      elim (Bool-cases (length p == 0)) [
        | inl y ↦ (r, rw (z, y) e)
        | inr y ↦ (47 ∷ (p ++ r), rw (z, y, e) refl)
      ]
]

join_parts-none : (ps : List (List ℕ)) (n : ℕ) → length ps < n → join_parts ps n ≡ none
unfolding join_parts
join_parts-none [] n h = let z : (n == 0) ≡ false = ground arith in rw z refl
join_parts-none (p ∷ ps) n h =
    let z : (n == 0) ≡ false = ground arith in
    let e = join_parts-none ps (n - 1) (omega (arith, h)) in
    elim (Bool-cases (length p == 0)) [ inl y ↦ rw (z, y) e | inr y ↦ rw (z, y, e) refl ]

-- A path of two parts or more is removed, and nothing else is.
find-remove_item :
    (item : List ℕ) (s : Server)
    → 2 ≤ length (split 47 item)
    → (s' : Server) × (remove_item item s ≡ some s')
      × ((j : List ℕ) → find j s'.files ≡ (if belongs_to item j then none else find j s.files))
unfolding remove_item directory_path
find-remove_item item s two =
    let (r, e) =
      join_parts-some (split 47 item) ((length (split 47 item) + 2 ^ 64 - 2) % 2 ^ 64)
        (omega (arith, two)) in
    (
      record {
        dirs = charge_less (find_path (r ++ 47 ∷ []) s.dirs) item s.files s.dirs;
        files = erase (item ++ j_extension_name) (erase item s.files);
      },
      rw e refl,
      λ j. ground (
        arith,
        find-erase (item ++ j_extension_name) j (erase item s.files),
        find-erase item j s.files,
      ),
    )

-- With fewer parts the loop over them runs past their end.
remove_item-none :
    (item : List ℕ) (s : Server) → length (split 47 item) < 2 → remove_item item s ≡ none
unfolding remove_item directory_path
remove_item-none item s few =
    let e =
      join_parts-none (split 47 item) ((length (split 47 item) + 2 ^ 64 - 2) % 2 ^ 64)
        (omega (arith, few)) in
    rw e refl

-- What was removed before is not there.
abbrev AreGone : List (List ℕ) → Files → Type 0
AreGone removed files =
    (x j : List ℕ) → is_in x removed ≡ true → belongs_to x j ≡ true → find j files ≡ none

AreGone-item :
    (item : List ℕ) (removed : List (List ℕ)) (files left : Files)
    → ((j : List ℕ) → find j left ≡ (if belongs_to item j then none else find j files))
    → AreGone removed files
    → AreGone (item ∷ removed) left
unfolding is_in
AreGone-item item removed files left gone h x j e b =
    ground (arith, h x j, gone j, bytes_eq_iff item x)

-- A loop over such lines ends, and leaves all other files.
remove_items-gone :
    (lines removed : List (List ℕ)) (s : Server)
    → All IsItem lines
    → AreGone removed s.files
    → (s' : Server) × (remove_items lines removed s ≡ some s')
      × ((j : List ℕ) → find j s'.files ≡ (if is_listed j lines then none else find j s.files))
unfolding remove_items is_listed
remove_items-gone [] removed s v h = (s, refl, λ j. refl)
remove_items-gone (line ∷ lines) removed s v h =
    let item = trim line in
    elim (Bool-cases (is_in item removed)) [
      | inl e ↦
          let rest = remove_items-gone lines removed s v.1 h in
          (rest.0, rw e rest.1, λ j. ground (arith, rest.2 j, h item j e))
      | inr e ↦ elim (Bool-cases (length item == 0)) [
        | inl z ↦
            let rest = remove_items-gone lines removed s v.1 h in
            (rest.0, rw (e, z) rest.1, λ j. ground (arith, rest.2 j))
        | inr z ↦
            let two : 2 ≤ length (split 47 item) = ground (arith, v.0) in
            let (s', done, gone) = find-remove_item item s two in
            let rest =
              remove_items-gone lines (item ∷ removed) s' v.1
                (AreGone-item item removed s.files s'.files gone h) in
            (rest.0, rw (e, z, done) rest.1, λ j. ground (arith, rest.2 j, gone j))
      ]
    ]

nothing_gone : (files : Files) → AreGone [] files
unfolding is_in
nothing_gone files x j e b = cc

-- The lines of a list.
abbrev pub lines_of : List ℕ → Server → List (List ℕ)
lines_of path s = split 10 (get_or (read_file path 0 s.files) [])

-- A list of files to remove, whose lines are empty or paths of two parts or more, is worked
-- through to its end, and then exactly the files that it names, and their database files, are
-- gone.
pub clear_list-gone :
    (path : List ℕ) (s : Server)
    → All IsItem (lines_of path s)
    → (s' : Server) × (clear_list path s ≡ some s')
      × ((j : List ℕ)
          → find j s'.files ≡ (if is_listed j (lines_of path s) then none else find j s.files))
unfolding clear_list
clear_list-gone path s v = remove_items-gone (lines_of path s) [] s v (nothing_gone s.files)

-- A path of two parts or more.
abbrev IsPath : List ℕ → Type 0
IsPath x = 2 ≤ length (split 47 x)

is_in-IsPath :
    (x : List ℕ) (removed : List (List ℕ))
    → All IsPath removed
    → length (split 47 x) < 2
    → is_in x removed ≡ false
unfolding is_in
is_in-IsPath x [] h few = refl
is_in-IsPath x (y ∷ ys) h few = elim (Bool-cases (bytes_eq y x)) [
  | inl e ↦
      let same : length (split 47 y) ≡ length (split 47 x) =
        ap (λ w. length (split 47 w)) ((bytes_eq_iff y x).0 e) in
      absurd (omega (arith, same, h.0, few))
  | inr e ↦ rw e (is_in-IsPath x ys h.1 few)
]

remove_items-none :
    (before : List (List ℕ)) (line : List ℕ) (rest removed : List (List ℕ)) (s : Server)
    → All IsPath removed
    → 0 < length (trim line)
    → length (split 47 (trim line)) < 2
    → remove_items (before ++ line ∷ rest) removed s ≡ none
unfolding remove_items
remove_items-none [] line rest removed s h some_char few =
    let z : (length (trim line) == 0) ≡ false = ground arith in
    rw (is_in-IsPath (trim line) removed h few, z, remove_item-none (trim line) s few) refl
remove_items-none (first ∷ before) line rest removed s h some_char few =
    let item = trim first in
    elim (Bool-cases (is_in item removed)) [
      | inl e ↦ rw e (remove_items-none before line rest removed s h some_char few)
      | inr e ↦ elim (Bool-cases (length item == 0)) [
        | inl z ↦ rw (e, z) (remove_items-none before line rest removed s h some_char few)
        | inr z ↦ elim (dec_lt (length (split 47 item)) 2) [
          | yes bad ↦ rw (e, z, remove_item-none item s bad) refl
          | no good ↦
              let (s', done, gone) = find-remove_item item s (omega (arith, good)) in
              rw (e, z, done)
                (remove_items-none before line rest (item ∷ removed) s' (omega (arith, good), h)
                  some_char few)
        ]
      ]
    ]

-- A list of which any line, trimmed, is not empty and has fewer than two parts is not worked
-- through to its end: the loop over the parts of that line, or of one like it before, reads
-- past their end.
pub clear_list_crash :
    (path line : List ℕ) (before rest : List (List ℕ)) (s : Server)
    → lines_of path s ≡ before ++ line ∷ rest
    → 0 < length (trim line)
    → length (split 47 (trim line)) < 2
    → clear_list path s ≡ none
unfolding clear_list
clear_list_crash path line before rest s e some_char few =
    rw e (remove_items-none before line rest [] s tt some_char few)
