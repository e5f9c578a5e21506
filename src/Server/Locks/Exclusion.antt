-- ===== src/Server/Locks/Exclusion.antt =====
-- A file that is written is neither read nor written by anybody else.
use rssdisk.Base.{
  ℕ, ◌+◌, ◌-◌, ◌%◌, ◌≤◌, ◌<◌, ◌≡◌, ◌≢◌, refl, sym, ◌∙◌, inl, inr, Bool, true, List, ◌∷◌, Option,
  none, some, if◌then◌else◌, bytes, bytes_eq, bytes_eq_iff, nat_eq, arith, ==_iff, Bool-cases,
}
use rssdisk.Base.Dict.{find, assign, erase, get_or, find-assign, find-erase, erase-IsDistinct}
use rssdisk.Server.Locks.{release, increment, leave_file, end_update}
use rssdisk.Server.Locks.Answers.{
  add_read-acquired, begin_write-acquired, begin_write-waiting, try_enter-acquired,
}
use rssdisk.Server.Locks.Holders.{
  reading, waits, writing, Hold, count, owner, reads, writes, updates, count-erase, owner-none,
  owner-none-count, owner_lem, owner-erase, owner-none, owner-held, writes-le-updates,
}
use rssdisk.Server.Locks.System.{
  System, Step, Inv, Reachable, starts_read, starts_write, queues, enters, ends, idles, start, next,
}

-- What `++files[f]` does to the entry of another file, and to its own.
get_or-increment :
    (f j : List ℕ) (m : List (List ℕ × ℕ))
    → get_or (find j (increment f m)) 0
      ≡ (if bytes_eq f j then (get_or (find j m) 0 + 1) % 256 else get_or (find j m) 0)
unfolding increment
get_or-increment f j m =
    ground (arith, find-assign f j ((get_or (find f m) 0 + 1) % 256) m, bytes_eq_iff f j)

increment-positive :
    (f j : List ℕ) (m : List (List ℕ × ℕ)) (c : ℕ)
    → ((d : ℕ) → find j m ≡ some d → 0 < d)
    → get_or (find f m) 0 < 255
    → find j (increment f m) ≡ some c
    → 0 < c
unfolding increment
increment-positive f j m c h b e =
    ground (arith, find-assign f j ((get_or (find f m) 0 + 1) % 256) m, h c)

-- What is known of one file, of a file with an equal name.
at_file : {f : List ℕ} → (P : List ℕ → Type 0) → P f → (j : List ℕ) → bytes_eq f j ≡ true → P j
at_file {f} P p j e = rw (← (bytes_eq_iff f j).0 e) p

-- What leaving does to the count of each file.
get_or-leave_file :
    (c : Option ℕ) (f j : List ℕ) (m : List (List ℕ × ℕ))
    → find f m ≡ c
    → ((d : ℕ) → c ≡ some d → 0 < d)
    → get_or c 0 < 256
    → get_or (find j (leave_file c f m)) 0
      ≡ (if bytes_eq f j then get_or c 0 - 1 else get_or (find j m) 0)
unfolding leave_file
get_or-leave_file none f j m e h b = ground (arith, bytes_eq_iff f j)
get_or-leave_file (some c) f j m e h b =
    ground (arith, h c refl, find-erase f j m, find-assign f j ((c + 255) % 256) m)

leave_file-positive :
    (c : Option ℕ) (f j : List ℕ) (m : List (List ℕ × ℕ)) (d : ℕ)
    → ((d : ℕ) → find j m ≡ some d → 0 < d)
    → find j (leave_file c f m) ≡ some d
    → 0 < d
unfolding leave_file
leave_file-positive none f j m d h e = h d e
leave_file-positive (some c) f j m d h e =
    ground (arith, h d, find-erase f j m, find-assign f j ((c + 255) % 256) m)

find-end_update :
    (p : Option ℕ) (t : ℕ) (f j : List ℕ) (m : List (List ℕ × ℕ))
    → p ≡ some t
    → find j (end_update p t f m) ≡ (if bytes_eq f j then none else find j m)
unfolding end_update
find-end_update none t f j m e = cc
find-end_update (some u) t f j m e = ground (arith, find-erase f j m, ==_iff u t)

end_update-other :
    (p : Option ℕ) (t : ℕ) (f : List ℕ) (m : List (List ℕ × ℕ))
    → p ≢ some t
    → end_update p t f m ≡ m
unfolding end_update
end_update-other none t f m e = refl
end_update-other (some u) t f m e = ground (arith, ==_iff u t)

module _ (s : System) (v : Inv s) (t : ℕ) (f : List ℕ) (free : find t s.holders ≡ none) where
  open s use {locks.{files, pending_update}, holders}

  same : bytes_eq f f ≡ true
  same = (bytes_eq_iff f f).1 refl

  no_updater : find f pending_update ≡ none → count (updates f) holders ≡ 0
  no_updater e = owner-none-count f holders (cc (v.owned f))

  read-Inv :
      count (reads f) holders < 255
      → find f pending_update ≡ none
      → Inv (record {
        locks = record { files = increment f files; pending_update = pending_update };
        holders = (t, record { file = f; mode = reading }) ∷ holders;
      })
  unfolding count owner
  read-Inv few_readers quiet =
      let none_at = at_file (λ j. count (updates j) holders ≡ 0) (no_updater quiet) in
      let few_at = at_file (λ j. count (reads j) holders < 255) few_readers in
      record {
        once = (free, v.once);
        counted = λ j. ground (
          arith,
          get_or-increment f j files,
          v.counted j,
          few_at j,
          none_at j,
          writes-le-updates j holders,
        );
        positive = λ j c e.
            increment-positive f j files c (v.positive j)
              (ground (arith, v.counted f, no_updater quiet, writes-le-updates f holders)) e;
        few = λ j. ground (arith, v.few j);
        alone = λ j. ground (arith, none_at j, v.alone j, writes-le-updates j holders);
        owned = λ j. ground (arith, v.owned j);
        bounded = λ j. ground (arith, v.bounded j, few_at j);
      }

  write-Inv :
      find f pending_update ≡ none
      → find f files ≡ none
      → Inv (record {
        locks = record { files = increment f files; pending_update = assign f t pending_update };
        holders = (t, record { file = f; mode = writing }) ∷ holders;
      })
  unfolding count owner
  write-Inv quiet empty =
      let none_at = at_file (λ j. count (updates j) holders ≡ 0) (no_updater quiet) in
      let empty_at = at_file (λ j. find j files ≡ none) empty in
      record {
        once = (free, v.once);
        counted = λ j. ground (arith, get_or-increment f j files, v.counted j, empty_at j);
        positive = λ j c e. increment-positive f j files c (v.positive j) (ground arith) e;
        few = λ j. ground (arith, none_at j, v.few j);
        alone = λ j. ground (arith, none_at j, v.alone j, v.counted j, empty_at j);
        owned = λ j. ground (arith, v.owned j, find-assign f j t pending_update);
        bounded = λ j. ground (arith, v.bounded j);
      }

  wait-Inv :
      find f pending_update ≡ none
      → Inv (record {
        locks = record { files = files; pending_update = assign f t pending_update };
        holders = (t, record { file = f; mode = waits }) ∷ holders;
      })
  unfolding count owner
  wait-Inv quiet =
      let none_at = at_file (λ j. count (updates j) holders ≡ 0) (no_updater quiet) in
      record {
        once = (free, v.once);
        counted = λ j. ground (arith, v.counted j);
        positive = v.positive;
        few = λ j. ground (arith, none_at j, v.few j);
        alone = λ j. ground (arith, v.alone j);
        owned = λ j. ground (arith, v.owned j, find-assign f j t pending_update);
        bounded = λ j. ground (arith, v.bounded j);
      }

module _ (s : System) (v : Inv s) (t : ℕ) where
  open s use {locks.{files, pending_update}, holders}

  enter-Inv :
      (f : List ℕ)
      → find t holders ≡ some (record { file = f; mode = waits })
      → find f files ≡ none
      → Inv (record {
        locks = record { files = increment f files; pending_update = pending_update };
        holders = (t, record { file = f; mode = writing }) ∷ erase t holders;
      })
  unfolding count owner
  enter-Inv f held empty =
      let h : Hold = record { file = f; mode = waits } in
      let less = λ (p : Hold → Bool). count-erase p t h holders v.once held in
      let empty_at = at_file (λ j. find j files ≡ none) empty in
      record {
        once =
            (ground (arith, find-erase t t holders, ==_iff t t), erase-IsDistinct t holders v.once);
        counted = λ j. ground (
          arith,
          get_or-increment f j files,
          v.counted j,
          empty_at j,
          less (reads j),
          less (writes j),
        );
        positive = λ j c e. increment-positive f j files c (v.positive j) (ground arith) e;
        few = λ j. ground (arith, v.few j, less (updates j));
        alone = λ j.
            ground (arith, v.alone j, less (reads j), less (writes j), v.counted j, empty_at j);
        owned = λ j. ground (
          arith,
          v.owned j,
          owner_lem j t h holders v.once held,
          owner-erase j t h holders v.once held,
          v.few j,
        );
        bounded = λ j. ground (arith, v.bounded j, less (reads j));
      }

  released-owned :
      (h : Hold) (j : List ℕ)
      → find t holders ≡ some h
      → find j (end_update (find h.file pending_update) t h.file pending_update)
        ≡ owner j (erase t holders)
  released-owned h j held = elim (Bool-cases (updates h.file h)) [
    | inl e ↦
        let mine = v.owned h.file ∙ owner_lem h.file t h holders v.once held e (v.few h.file) in
        ground (
          arith,
          find-end_update (find h.file pending_update) t h.file j pending_update mine,
          owner-none j (erase t holders),
          count-erase (updates j) t h holders v.once held,
          v.few j,
          v.owned j,
          owner-erase j t h holders v.once held,
          bytes_eq_iff h.file h.file,
        )
    | inr e ↦
        let other = owner-erase h.file t h holders v.once held e in
        let gone : find t (erase t holders) ≡ none =
          ground (arith, find-erase t t holders, ==_iff t t) in
        let not_mine = λ (q : find h.file pending_update ≡ some t).
          owner-held h.file t (erase t holders) (other ∙ sym (v.owned h.file) ∙ q) gone in
        rw (end_update-other (find h.file pending_update) t h.file pending_update not_mine) (
          v.owned j
          ∙ sym
              (owner-erase j t h holders v.once held (ground (arith, bytes_eq_iff h.file h.file))))
  ]

  end-Inv :
      (h : Hold)
      → find t holders ≡ some h
      → h.mode ≢ waits
      → Inv (record { locks = release t h.file s.locks; holders = erase t holders })
  unfolding release
  end-Inv h held active =
      let less = λ (p : Hold → Bool). count-erase p t h holders v.once held in
      let c = find h.file files in
      record {
        once = erase-IsDistinct t holders v.once;
        counted = λ j. ground (
          arith,
          get_or-leave_file c h.file j files refl (v.positive h.file),
          v.counted j,
          v.counted h.file,
          less (reads j),
          less (writes j),
          v.alone h.file,
          v.bounded h.file,
          v.few h.file,
          writes-le-updates h.file holders,
          bytes_eq_iff h.file j,
        );
        positive = λ j d e. leave_file-positive c h.file j files d (v.positive j) e;
        few = λ j. ground (arith, v.few j, less (updates j));
        alone = λ j. ground (arith, v.alone j, less (reads j), less (writes j));
        owned = λ j. released-owned h j held;
        bounded = λ j. ground (arith, v.bounded j, less (reads j));
      }

Step-Inv : {s s' : System} → Inv s → Step s s' → Inv s'
Step-Inv {s} v (starts_read t f free few e q) =
    let a = add_read-acquired f s.locks e in rw (q, a.1) (read-Inv s v t f free few a.0)
Step-Inv {s} v (starts_write t f free e q) =
    let a = begin_write-acquired t f s.locks e in rw (q, a.2) (write-Inv s v t f free a.0 a.1)
Step-Inv {s} v (queues t f free e q) =
    let a = begin_write-waiting t f s.locks e in rw (q, a.1) (wait-Inv s v t f free a.0)
Step-Inv {s} v (enters t f held e q) =
    let a = try_enter-acquired f s.locks e in rw (q, a.1) (enter-Inv s v t f held a.0)
Step-Inv {s} v (ends t h held active q) = rw q (end-Inv s v t h held active)
Step-Inv {s} v (idles q) = rw q v

pub Reachable-Inv : {s : System} → Reachable s → Inv s
unfolding find count owner
Reachable-Inv start = record {
  once = tt;
  counted = λ f. refl;
  positive = λ f c e. cc;
  few = λ f. omega arith;
  alone = λ f e. refl;
  owned = λ f. refl;
  bounded = λ f. omega arith;
}
Reachable-Inv (next r st) = Step-Inv (Reachable-Inv r) st

-- In every state that threads reach over `locked_files`, in any order of their sections, with
-- fewer than 256 readers of one file: a file has at most one writer, while it is written nobody
-- reads it, and its counter is the number of its readers and writers.
pub Reachable-exclusion :
    {s : System} (f : List ℕ)
    → Reachable s
    → (count (writes f) s.holders ≤ 1)
      × (0 < count (writes f) s.holders → count (reads f) s.holders ≡ 0)
      × (get_or (find f s.locks.files) 0 ≡ count (reads f) s.holders + count (writes f) s.holders)
Reachable-exclusion {s} f r =
    let v = Reachable-Inv r in
    (ground (arith, writes-le-updates f s.holders, v.few f), v.alone f, v.counted f)
