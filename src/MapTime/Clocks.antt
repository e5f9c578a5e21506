-- ===== src/MapTime/Clocks.antt =====
-- libs/map_time.h: `steady_clock_to_time_t` and `time_t_to_steady_clock`.
use rssdisk.Base.{ℕ, ◌+◌, ◌-◌, ◌*◌, ◌/◌, ◌%◌, ◌^◌, leb, if◌then◌else◌}
use rssdisk.Base.Words.{i32→size}

-- One reading of both clocks, as time points counted from their minimum.
pub record Clock : Type 0 where
  pub steady : ℕ
  pub system : ℕ

abbrev pub billion : ℕ
billion = 1_000_000_000

-- `std::chrono::seconds(ttl)` in nanoseconds, a 64-bit pattern.
abbrev pub seconds : ℕ → ℕ
seconds ttl = i32→size ttl * billion % 2 ^ 64

-- `system_clock::to_time_t`: whole seconds, rounded towards zero, as a 64-bit pattern.
unfoldable pub to_time_t : ℕ → ℕ
to_time_t p =
    if leb (2 ^ 63) p then (p - 2 ^ 63) / billion else (2 ^ 64 - (2 ^ 63 - p) / billion) % 2 ^ 64

-- `system_clock::from_time_t`.
unfoldable pub from_time_t : ℕ → ℕ
from_time_t t = (t * billion + 2 ^ 63) % 2 ^ 64

unfoldable pub steady_clock_to_time_t : Clock → ℕ → ℕ
unfolding to_time_t
steady_clock_to_time_t c t = to_time_t ((c.system + t + 2 ^ 64 - c.steady) % 2 ^ 64)

unfoldable pub time_t_to_steady_clock : Clock → ℕ → ℕ
unfolding from_time_t
time_t_to_steady_clock c t = (c.steady + from_time_t t + 2 ^ 64 - c.system) % 2 ^ 64
