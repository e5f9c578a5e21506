-- ===== src/MapTime.antt =====
-- libs/map_time.h: a map whose entries expire, with a queue of the times at which they do.
-- A time point is its count of nanoseconds from `time_point::min()`, so that `<` on time points is
-- `<` on the counts, and a sum wraps at 2 ^ 64. The lock is held through each operation, so an
-- operation is one step; each one takes the clocks' readings as an argument.
pub mod Clocks
pub mod Store
pub mod Ttl
pub mod Invariant
pub mod Access
pub mod History
pub mod Blocks
pub mod Examples
unfoldable pub use Clocks.*
unfoldable pub use Store.*
