-- ===== src/Timestamp.antt =====
-- src/storage/timestamp.rs: the timestamps of the store, and the comparator of its keys. The
-- clock's reading is an argument. A u64 keeps its wrap-around.
pub mod Laws
pub mod Comparator
use maestro_symphony.Prelude.{ℕ, ◌+◌, ◌*◌, ◌/◌, ◌%◌, ◌^◌, leb, if◌then◌else◌}

abbrev pub logical_bits : ℕ
logical_bits = 18

pub record Timestamp : Type 0 where
  pub physical : ℕ
  pub logical : ℕ

-- `Timestamp::new`, at the clock's `unix_ts`.
unfoldable pub new : ℕ → Timestamp
new unix_ts = record { physical = unix_ts; logical = 0 }

unfoldable pub after : ℕ → Timestamp → Timestamp
after unix_ts prev = record {
  physical = unix_ts;
  logical = if leb unix_ts prev.physical then (prev.logical + 1) % 2 ^ 64 else 0;
}

unfoldable pub as_u64 : Timestamp → ℕ
as_u64 t = (t.physical * 2 ^ logical_bits % 2 ^ 64 + t.logical) % 2 ^ 64

-- `n & LOGICAL_MASK` is the remainder by 2 ^ 18.
unfoldable pub from_u64 : ℕ → Timestamp
from_u64 n = record { physical = n / 2 ^ logical_bits; logical = n % 2 ^ logical_bits }
