-- ===== src/CacheDb/Search/Records.antt =====
-- The records of an answer are read one by one.
use rssdisk.Base.{
  ℕ, zero, suc, ◌+◌, ◌-◌, ◌%◌, ◌^◌, ◌≤◌, ◌<◌, ◌≡◌, refl, sym, ap, ◌∙◌, true, false, List, [], ◌∷◌,
  ◌++◌, Option, arith, ltb, length, length-append, length-drop, drop, append_assoc, All, bytes,
}
use rssdisk.Base.Words.{add_size, i32→size_pos}
use rssdisk.Bitbase.{numeric_to_chars}
use rssdisk.Bitbase.RoundTrip.{length-numeric_to_chars}
use rssdisk.Bitbase.Fields.{take_field, drop_field, read_number, next_number, length_at}
use rssdisk.MapTime.{Clock, TimedVal, steady_clock_to_time_t}
use rssdisk.CacheDb.Manager.{Item}
use rssdisk.CacheDb.Persist.{Entry, IsStorable, time-lt}
use rssdisk.CacheDb.Search.{OutFormat, Read, parsed, show, add_read, parse_loop, entry_record}

abbrev pub records : Clock → List Entry → List ℕ
records c [] = []
records c (e ∷ es) = entry_record c e ++ records c es

module _ {ℓ} {V : Type ℓ} (parse : List ℕ → Option V) (decompress_string : List ℕ → List ℕ)
    (frm : OutFormat) (c : Clock) (ip : ℕ) where
  -- What the client has of an entry.
  abbrev pub fresh_of : TimedVal Item → Read V
  fresh_of v = record {
    tms = v.val.timestamp;
    crc32 = v.val.checksum;
    valid_to = steady_clock_to_time_t c v.valid_until;
    shown = show parse decompress_string frm (decompress_string v.val.content);
    readed = [];
  }

  abbrev pub add_reads : List Entry → List (List ℕ × Read V) → List (List ℕ × Read V)
  add_reads [] all = all
  add_reads (e ∷ es) all =
      add_reads es (add_read parse decompress_string frm ip e.0 (fresh_of e.1) all)

  module _ (d rest : List ℕ) (start : ℕ) (k : List ℕ) (v : TimedVal Item) (ok : IsStorable (k, v))
      (small : length d < 2 ^ 60) (at : drop start d ≡ entry_record c (k, v) ++ rest) where
    abbrev from_content : List ℕ
    from_content = v.val.content ++ rest

    abbrev from_sizes : List ℕ
    from_sizes =
        numeric_to_chars 4 (length k)
        ++ (numeric_to_chars 4 (length v.val.content) ++ (k ++ from_content))

    abbrev from_time : List ℕ
    from_time = numeric_to_chars 8 (steady_clock_to_time_t c v.valid_until) ++ from_sizes

    at_record :
        drop start d
        ≡ numeric_to_chars 8 v.val.timestamp ++ (numeric_to_chars 8 v.val.checksum ++ from_time)
    at_record =
        let m : length k % 2 ^ 32 ≡ length k = omega (arith, ok.key_fits) in
        let n : length v.val.content % 2 ^ 32 ≡ length v.val.content =
          omega (arith, ok.content_fits) in
        at ∙ unfold entry_record in rw (m, n) (simp append_assoc)

    room : start + 32 + length k + length v.val.content + length rest ≤ length d
    room =
        let c8 = numeric_to_chars 8 v.val.checksum in
        let s4 = numeric_to_chars 4 (length v.val.content) in
        omega (
          arith,
          ok.content_pos,
          length_at start d (numeric_to_chars 8 v.val.timestamp) (c8 ++ from_time) at_record,
          length-append c8 from_time,
          length-append (numeric_to_chars 8 (steady_clock_to_time_t c v.valid_until)) from_sizes,
          length-append (numeric_to_chars 4 (length k)) (s4 ++ (k ++ from_content)),
          length-append s4 (k ++ from_content),
          length-append k from_content,
          length-append v.val.content rest,
          length-numeric_to_chars 8 v.val.timestamp,
          length-numeric_to_chars 8 v.val.checksum,
          length-numeric_to_chars 8 (steady_clock_to_time_t c v.valid_until),
          length-numeric_to_chars 4 (length k),
          length-numeric_to_chars 4 (length v.val.content),
        )

    at_checksum : drop (start + 8) d ≡ numeric_to_chars 8 v.val.checksum ++ from_time
    at_checksum = next_number 8 v.val.timestamp start (start + 8) d _ at_record refl

    at_time : drop (start + 16) d ≡ from_time
    at_time = next_number 8 v.val.checksum (start + 8) (start + 16) d _ at_checksum (omega arith)

    at_sizes : drop (start + 24) d ≡ from_sizes
    at_sizes =
        next_number 8 (steady_clock_to_time_t c v.valid_until) (start + 16) (start + 24) d _ at_time
          (omega arith)

    at_size : drop (start + 28) d ≡ numeric_to_chars 4 (length v.val.content) ++ (k ++ from_content)
    at_size = next_number 4 (length k) (start + 24) (start + 28) d _ at_sizes (omega arith)

    at_key : drop (start + 32) d ≡ k ++ from_content
    at_key =
        next_number 4 (length v.val.content) (start + 28) (start + 32) d _ at_size (omega arith)

    at_content : drop (start + 32 + length k) d ≡ from_content
    at_content = drop_field (start + 32) (length k) d k from_content at_key refl

    pub at_next : drop (start + 32 + length k + length v.val.content) d ≡ rest
    at_next =
        drop_field (start + 32 + length k) (length v.val.content) d v.val.content rest at_content
          refl

    pub parse_loop-record :
        (fuel : ℕ) (all : List (List ℕ × Read V))
        → parse_loop parse decompress_string frm (suc fuel) ip d start all
          ≡ parse_loop parse decompress_string frm fuel ip d
              (start + 32 + length k + length v.val.content)
              (add_read parse decompress_string frm ip k (fresh_of v) all)
    unfolding parse_loop
    parse_loop-record fuel all =
        let tms =
          read_number 8 8 v.val.timestamp start d _ at_record (omega arith) ok.timestamp_fits in
        let crc =
          read_number 8 8 v.val.checksum (start + 8) d _ at_checksum (omega arith)
            ok.checksum_fits in
        let time =
          read_number 8 8 (steady_clock_to_time_t c v.valid_until) (start + 16) d _ at_time
            (omega arith) (time-lt c v.valid_until) in
        let ks =
          read_number 4 4 (length k) (start + 24) d _ at_sizes (omega arith)
            (omega (arith, ok.key_fits)) in
        let vs =
          read_number 4 4 (length v.val.content) (start + 28) d _ at_size (omega arith)
            (omega (arith, ok.content_fits)) in
        let ki = i32→size_pos (length k) (omega (arith, ok.key_fits)) in
        let vi = i32→size_pos (length v.val.content) (omega (arith, ok.content_fits)) in
        let e : add_size (start + 32) (length k) ≡ start + 32 + length k = omega (arith, room) in
        let e' : add_size (start + 32 + length k) (length v.val.content)
            ≡ start + 32 + length k + length v.val.content =
          omega (arith, room) in
        let more : ltb (add_size start 32) (length d) ≡ true =
          ground (arith, room, ok.content_pos) in
        let inside : ltb (length d) (start + 32 + length k) ≡ false = ground (arith, room) in
        let key = take_field (start + 32) (length k) d k from_content at_key refl in
        let content =
          take_field (start + 32 + length k) (length v.val.content) d v.val.content rest at_content
            refl in
        rw (ks, vs, ki, vi, e, e', more, inside, key, content, tms, crc, time) refl

  pub parse_loop-records :
      (fuel : ℕ) (d : List ℕ) (start : ℕ) (es : List Entry) (all : List (List ℕ × Read V))
      → length es < fuel
      → length d < 2 ^ 60
      → start ≤ length d
      → All IsStorable es
      → drop start d ≡ records c es
      → parse_loop parse decompress_string frm fuel ip d start all ≡ parsed (add_reads es all)
  unfolding parse_loop
  parse_loop-records zero d start es all enough small inside ok at = absurd (omega arith)
  parse_loop-records (suc fuel) d start [] all enough small inside ok at =
      let ends : length d - start ≡ 0 = sym (length-drop start d) ∙ ap length at in
      let done : ltb (add_size start 32) (length d) ≡ false = ground (arith, ends, inside) in
      rw done refl
  parse_loop-records (suc fuel) d start (e ∷ es) all enough small inside ok at =
      let next : ℕ = start + 32 + length e.0 + length e.1.val.content in
      parse_loop-record d (records c es) start e.0 e.1 ok.0 small at fuel all
      ∙ parse_loop-records fuel d next es
          (add_read parse decompress_string frm ip e.0 (fresh_of e.1) all) (omega (arith, enough))
          small (omega (arith, room d (records c es) start e.0 e.1 ok.0 small at)) ok.1
          (at_next d (records c es) start e.0 e.1 ok.0 small at)
