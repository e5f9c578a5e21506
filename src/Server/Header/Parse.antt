-- ===== src/Server/Header/Parse.antt =====
-- The parser takes a message apart where its fields end.
use rssdisk.Base.{
  ℕ, suc, ◌+◌, ◌-◌, ◌≤◌, ◌<◌, ◌≡◌, refl, sym, ◌∙◌, List, [], ◌∷◌, ◌++◌, append-nil, append_assoc,
  Bool, true, false, ◌&&◌, ◌==◌, length, length-append, All, bytes_eq_iff, arith, ◌⊎◌, inl, inr,
}
use rssdisk.Server.Text.{stoi}
use rssdisk.Server.WType.{w_type}
use rssdisk.Server.Header.{
  Header, stable_bytes, wrong_auth, end_field, add_flag, add_to_field, parse_char, parse_from,
  parse_header,
}

abbrev pub IsNoSpace : ℕ → Type 0
IsNoSpace c = (c == 32) ≡ false

-- The loop's variables while the authorisation is right.
abbrev reading_field : ℕ → List ℕ → List ℕ → List ℕ → List ℕ → ℕ → ℕ → ℕ → Header
reading_field k a f t g start m stable = record {
  auth = a;
  file_name = f;
  ttl_days = t;
  flags = g;
  filename_filled = k;
  start_content_from = start;
  is_auth_ok = true;
  max_auth_size = m;
  stable_read_count_bytes = stable;
}

module _ (need : Bool) (conf : List ℕ) where
  parse_auth :
      (w rest a : List ℕ) (i m : ℕ)
      → All IsNoSpace w
      → length w ≤ m
      → parse_from need conf i (w ++ rest) (reading_field 0 a [] [] [] 0 m 0)
        ≡ parse_from need conf
            (i + length w)
            rest
            (reading_field 0 (a ++ w) [] [] [] 0 (m - length w) 0)
  unfolding parse_from parse_char add_to_field
  parse_auth [] rest a i m v h =
      let e : i + 0 ≡ i = omega arith in
      let e' : m - 0 ≡ m = omega arith in rw (e, e', append-nil a) refl
  parse_auth (c ∷ w) rest a i m v h =
      let some_left : (m == 0) ≡ false = ground arith in
      let e : i + suc (length w) ≡ i + 1 + length w = omega arith in
      let e' : m - suc (length w) ≡ m - 1 - length w = omega arith in
      let more : a ++ c ∷ w ≡ a ++ c ∷ [] ++ w = sym (append_assoc a (c ∷ []) w) in
      rw (v.0, some_left, e, e', more)
        (parse_auth w rest (a ++ c ∷ []) (i + 1) (m - 1) v.1 (omega arith))

  parse_name :
      (w rest a f : List ℕ) (i s m : ℕ)
      → All IsNoSpace w
      → parse_from need conf i (w ++ rest) (reading_field 1 a f [] [] s m 0)
        ≡ parse_from need conf (i + length w) rest (reading_field 1 a (f ++ w) [] [] s m 0)
  unfolding parse_from parse_char add_to_field
  parse_name [] rest a f i s m v = let e : i + 0 ≡ i = omega arith in rw (e, append-nil f) refl
  parse_name (c ∷ w) rest a f i s m v =
      let e : i + suc (length w) ≡ i + 1 + length w = omega arith in
      let more : f ++ c ∷ w ≡ f ++ c ∷ [] ++ w = sym (append_assoc f (c ∷ []) w) in
      rw (v.0, e, more) (parse_name w rest a (f ++ c ∷ []) (i + 1) s m v.1)

  parse_ttl :
      (w rest a f t : List ℕ) (i s m : ℕ)
      → All IsNoSpace w
      → parse_from need conf i (w ++ rest) (reading_field 2 a f t [] s m 0)
        ≡ parse_from need conf (i + length w) rest (reading_field 2 a f (t ++ w) [] s m 0)
  unfolding parse_from parse_char add_to_field
  parse_ttl [] rest a f t i s m v = let e : i + 0 ≡ i = omega arith in rw (e, append-nil t) refl
  parse_ttl (c ∷ w) rest a f t i s m v =
      let e : i + suc (length w) ≡ i + 1 + length w = omega arith in
      let more : t ++ c ∷ w ≡ t ++ c ∷ [] ++ w = sym (append_assoc t (c ∷ []) w) in
      rw (v.0, e, more) (parse_ttl w rest a f (t ++ c ∷ []) (i + 1) s m v.1)

  -- The raw bytes of the flags may be spaces.
  parse_raw :
      (w rest a f t g : List ℕ) (i s m : ℕ)
      → 2 ≤ length g
      → parse_from need conf i (w ++ rest) (reading_field 3 a f t g s m (length w))
        ≡ parse_from need conf (i + length w) rest (reading_field 3 a f t (g ++ w) s m 0)
  unfolding parse_from parse_char add_to_field add_flag
  parse_raw [] rest a f t g i s m two = let e : i + 0 ≡ i = omega arith in rw (e, append-nil g) refl
  parse_raw (c ∷ w) rest a f t g i s m two =
      let e : i + suc (length w) ≡ i + 1 + length w = omega arith in
      let more : g ++ c ∷ w ≡ g ++ c ∷ [] ++ w = sym (append_assoc g (c ∷ []) w) in
      let raw : ((c == 32) && (suc (length w) == 0)) ≡ false = ground arith in
      let longer : length (g ++ c ∷ []) ≡ length g + 1 = length-append g (c ∷ []) in
      let not_two : (length (g ++ c ∷ []) == 2) ≡ false = ground arith in
      let less : suc (length w) - 1 ≡ length w = omega arith in
      rw (raw, not_two, less, e, more)
        (parse_raw w rest a f t (g ++ c ∷ []) (i + 1) s m (omega (arith, longer)))

  pub parse_flags :
      (x y : ℕ) (w rest a f t : List ℕ) (i s m : ℕ)
      → IsNoSpace x
      → IsNoSpace y
      → length w ≡ stable_bytes (w_type (stoi (x ∷ y ∷ []) 0)) 0
      → parse_from need conf i (x ∷ y ∷ (w ++ rest)) (reading_field 3 a f t [] s m 0)
        ≡ parse_from need conf (i + 2 + length w) rest (reading_field 3 a f t (x ∷ y ∷ w) s m 0)
  unfolding parse_from parse_char add_to_field add_flag
  parse_flags x y w rest a f t i s m nx ny size =
      let e : i + 1 + 1 ≡ i + 2 = omega arith in
      rw (nx, ny, ← size, e) (parse_raw w rest a f t (x ∷ y ∷ []) (i + 2) s m (omega arith))

  IsRight : List ℕ → Type 0
  IsRight a = (need ≡ false) ⊎ ((conf ≡ []) ⊎ (conf ≡ a))

  not_wrong :
      (k : ℕ) (a f t g : List ℕ) (s m : ℕ)
      → (0 < k) ⊎ IsRight a
      → wrong_auth need conf (reading_field k a f t g s m 0) ≡ false
  unfolding wrong_auth IsRight
  not_wrong k a f t g s m right = ground (arith, bytes_eq_iff conf a)

  end_right :
      (k : ℕ) (rest a f t g : List ℕ) (i s m : ℕ)
      → (0 < k) ⊎ IsRight a
      → k < 3
      → parse_from need conf i (32 ∷ rest) (reading_field k a f t g s m 0)
        ≡ parse_from need conf (i + 1) rest (reading_field (k + 1) a f t g i m 0)
  unfolding parse_from parse_char end_field
  end_right k rest a f t g i s m right h =
      let more : (k == 3) ≡ false = ground arith in rw (not_wrong k a f t g s m right, more) refl

  end_last :
      (rest a f t g : List ℕ) (i s m : ℕ)
      → parse_from need conf i (32 ∷ rest) (reading_field 3 a f t g s m 0)
        ≡ reading_field 3 a f t g i m 0
  unfolding parse_from parse_char end_field
  end_last rest a f t g i s m = rw (not_wrong 3 a f t g s m (inl (omega arith))) refl

-- The message whose fields these are.
abbrev pub message : List ℕ → List ℕ → List ℕ → List ℕ → List ℕ → List ℕ
message auth name ttl flags body =
    auth ++ (32 ∷ (name ++ (32 ∷ (ttl ++ (32 ∷ (flags ++ (32 ∷ body)))))))

-- The loop over the header takes a message apart into the authorisation, the file name, the
-- time to live and the flags that it was put together from, and finds where the content starts,
-- also where the raw bytes of the flags are spaces. The other fields have no space, the
-- authorisation has at most 256 bytes and is the right one if it is checked, and the raw bytes
-- are as many as the kind has.
pub parse_header-message :
    (need : Bool) (conf auth name ttl raw body : List ℕ) (x y : ℕ)
    → All IsNoSpace auth
    → All IsNoSpace name
    → All IsNoSpace ttl
    → IsNoSpace x
    → IsNoSpace y
    → length raw ≡ stable_bytes (w_type (stoi (x ∷ y ∷ []) 0)) 0
    → length auth ≤ 256
    → (need ≡ false) ⊎ ((conf ≡ []) ⊎ (conf ≡ auth))
    → parse_header need conf (message auth name ttl (x ∷ y ∷ raw) body) ≡ record {
      auth = auth;
      file_name = name;
      ttl_days = ttl;
      flags = x ∷ y ∷ raw;
      filename_filled = 3;
      start_content_from = length auth + length name + length ttl + length raw + 5;
      is_auth_ok = true;
      max_auth_size = 256 - length auth;
      stable_read_count_bytes = 0;
    }
unfolding parse_header IsRight
parse_header-message need conf auth name ttl raw body x y va vn vt vx vy size short right =
    let i = 0 + length auth in
    let j = i + 1 + length name in
    let k = j + 1 + length ttl in
    let m = 256 - length auth in
    let flags = x ∷ y ∷ raw in
    let from_name = name ++ (32 ∷ (ttl ++ (32 ∷ (flags ++ (32 ∷ body))))) in
    let from_ttl = ttl ++ (32 ∷ (flags ++ (32 ∷ body))) in
    let place : k + 1 + 2 + length raw ≡ length auth + length name + length ttl + length raw + 5 =
      omega arith in
    parse_auth need conf auth (32 ∷ from_name) [] 0 256 va short
    ∙ end_right need conf 0 from_name auth [] [] [] i 0 m (inr right) (omega arith)
    ∙ parse_name need conf name (32 ∷ from_ttl) auth [] (i + 1) i m vn
    ∙ end_right need conf 1 from_ttl auth name [] [] j i m (inl (omega arith)) (omega arith)
    ∙ parse_ttl need conf ttl (32 ∷ (flags ++ (32 ∷ body))) auth name [] (j + 1) j m vt
    ∙ end_right need conf 2 (flags ++ (32 ∷ body)) auth name ttl [] k j m (inl (omega arith))
        (omega arith)
    ∙ parse_flags need conf x y raw (32 ∷ body) auth name ttl (k + 1) k m vx vy size
    ∙ end_last need conf body auth name ttl flags (k + 1 + 2 + length raw) k m
    ∙ rw place refl
