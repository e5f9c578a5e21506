-- ===== src/Server/Locks/Holders.antt =====
-- The threads that hold a file or wait for it: what the lock's tables stand for.
use rssdisk.Base.{
  ℕ, ◌+◌, ◌≤◌, ◌<◌, ◌≡◌, ◌≢◌, refl, Bool, true, false, ◌&&◌, not, List, [], ◌∷◌, Option, none, some,
  if◌then◌else◌, bytes, bytes_eq, nat_eq, arith, ==_iff,
}
use rssdisk.Base.Dict.{find, erase, IsDistinct}

pub data Mode : Type 0 where
  reading waits writing : Mode

pub record Hold : Type 0 where
  pub file : List ℕ
  pub mode : Mode

abbrev pub Holders : Type 0
Holders = List (ℕ × Hold)

abbrev pub is_reading : Mode → Bool
is_reading reading = true
is_reading m = false

abbrev pub is_writing : Mode → Bool
is_writing writing = true
is_writing m = false

abbrev pub one_if : Bool → ℕ
one_if true = 1
one_if false = 0

abbrev pub reads : List ℕ → Hold → Bool
reads f h = bytes_eq h.file f && is_reading h.mode

abbrev pub writes : List ℕ → Hold → Bool
writes f h = bytes_eq h.file f && is_writing h.mode

-- Writes the file, or waits to.
abbrev pub updates : List ℕ → Hold → Bool
updates f h = bytes_eq h.file f && not (is_reading h.mode)

unfoldable pub count : (Hold → Bool) → Holders → ℕ
count p [] = 0
count p ((t, h) ∷ hs) = one_if (p h) + count p hs

-- The first thread in the list that writes the file or waits to.
unfoldable pub owner : List ℕ → Holders → Option ℕ
owner f [] = none
owner f ((t, h) ∷ hs) = if updates f h then some t else owner f hs

erase-absent : (t : ℕ) (hs : Holders) → find t hs ≡ none → erase t hs ≡ hs
unfolding find erase
erase-absent t [] e = refl
erase-absent t ((u, h) ∷ hs) e = ground (arith, erase-absent t hs)

pub count-erase :
    (p : Hold → Bool) (t : ℕ) (h : Hold) (hs : Holders)
    → IsDistinct hs
    → find t hs ≡ some h
    → count p hs ≡ one_if (p h) + count p (erase t hs)
unfolding count find erase
count-erase p t h [] d e = cc
count-erase p t h ((u, g) ∷ hs) d e =
    ground (arith, count-erase p t h hs d.1, erase-absent t hs, ==_iff u t)

pub owner-none : (f : List ℕ) (hs : Holders) → count (updates f) hs ≡ 0 → owner f hs ≡ none
unfolding count owner
owner-none f [] e = refl
owner-none f ((u, g) ∷ hs) e = ground (arith, owner-none f hs)

pub owner-some :
    (f : List ℕ) (t : ℕ) (hs : Holders) → owner f hs ≡ some t → 0 < count (updates f) hs
unfolding count owner
owner-some f t [] e = cc
owner-some f t ((u, g) ∷ hs) e = ground (arith, owner-some f t hs)

-- The one thread that updates the file is the owner.
pub owner_lem :
    (f : List ℕ) (t : ℕ) (h : Hold) (hs : Holders)
    → IsDistinct hs
    → find t hs ≡ some h
    → updates f h ≡ true
    → count (updates f) hs ≤ 1
    → owner f hs ≡ some t
unfolding count owner find
owner_lem f t h [] d e w c = cc
owner_lem f t h ((u, g) ∷ hs) d e w c =
    ground (arith, owner_lem f t h hs d.1, ==_iff u t, count-erase (updates f) t h hs d.1)

pub owner-erase :
    (f : List ℕ) (t : ℕ) (h : Hold) (hs : Holders)
    → IsDistinct hs
    → find t hs ≡ some h
    → updates f h ≡ false
    → owner f (erase t hs) ≡ owner f hs
unfolding owner find erase
owner-erase f t h [] d e w = refl
owner-erase f t h ((u, g) ∷ hs) d e w =
    ground (arith, owner-erase f t h hs d.1, ==_iff u t, erase-absent t hs)

pub owner-none-count : (f : List ℕ) (hs : Holders) → owner f hs ≡ none → count (updates f) hs ≡ 0
unfolding count owner
owner-none-count f [] e = refl
owner-none-count f ((u, g) ∷ hs) e = ground (arith, owner-none-count f hs)

pub writes-le-updates : (f : List ℕ) (hs : Holders) → count (writes f) hs ≤ count (updates f) hs
unfolding count
writes-le-updates f [] = omega arith
writes-le-updates f ((t, h) ∷ hs) = ground (arith, writes-le-updates f hs)

-- The owner holds something.
pub owner-held : (f : List ℕ) (t : ℕ) (hs : Holders) → owner f hs ≡ some t → find t hs ≢ none
unfolding owner find
owner-held f t [] e = cc
owner-held f t ((u, g) ∷ hs) e = ground (arith, owner-held f t hs, ==_iff u t)
