-- ===== src/Server/WType.antt =====
-- libs/network/rssdisk_w_type.hpp: the kinds of files, and the statuses of a response.
use rssdisk.Base.{ℕ, zero, suc, List, [], ◌∷◌}

-- `unlisted` is what a cast of another number yields.
pub data WType : Type 0 where
  insert_only updatable insert_only_without_compress updatable_without_compress jdb jdb_formed :
      WType
  jdb_data none_type edb ajdb cdb cdbm appendable : WType
  unlisted : ℕ → WType

-- The kinds, each at its number.
abbrev listed : List WType
listed =
    insert_only ∷ updatable ∷ insert_only_without_compress ∷ updatable_without_compress ∷ jdb
    ∷ jdb_formed ∷ jdb_data ∷ none_type ∷ edb ∷ ajdb ∷ cdb ∷ cdbm ∷ appendable ∷ []

at_number : ℕ → List WType → WType → WType
at_number n [] t = t
at_number zero (t ∷ ts) u = t
at_number (suc n) (t ∷ ts) u = at_number n ts u

-- `static_cast<w_type>(n)`.
unfoldable pub w_type : ℕ → WType
unfolding at_number
w_type n = at_number n listed (unlisted n)

-- `static_cast<int>(t)`.
unfoldable pub to_int : WType → ℕ
to_int insert_only = 0
to_int updatable = 1
to_int insert_only_without_compress = 2
to_int updatable_without_compress = 3
to_int jdb = 4
to_int jdb_formed = 5
to_int jdb_data = 6
to_int none_type = 7
to_int edb = 8
to_int ajdb = 9
to_int cdb = 10
to_int cdbm = 11
to_int appendable = 12
to_int (unlisted n) = n

pub data Status : Type 0 where
  ok to_small_content_size all_directories_are_full cant_write_file_to_disk : Status
  file_name_must_not_be_empty cant_read_file file_not_found file_busy too_long_filename : Status
  auth_failed incorrect_secure_key write_is_disabled read_is_disabled subfolder_not_found : Status
  setting_not_found errorstr : Status
