-- ===== src/Timestamp/Laws.antt =====
-- src/storage/timestamp.rs: the packing into a u64, and when a timestamp lies after another.
use maestro_symphony.Prelude.{ℕ, ◌+◌, ◌^◌, ◌<◌, ◌≤◌, ◌≡◌, arith}
use maestro_symphony.Timestamp.{Timestamp, after, as_u64, from_u64}

-- The two parts fit the 46 and 18 bits of the packed form.
pub record IsPacked (t : Timestamp) : Type 0 where
  pub physical_fits : t.physical < 2 ^ 46
  pub logical_fits : t.logical < 2 ^ 18

-- A timestamp whose parts fit is read back from its packed form, and a u64 is the packed form of
-- the timestamp that is read from it.
pub from_u64-as_u64 :
    (t : Timestamp) (n : ℕ)
    → IsPacked t
    → n < 2 ^ 64
    → (from_u64 (as_u64 t) ≡ t) × (as_u64 (from_u64 n) ≡ n) × IsPacked (from_u64 n)
unfolding from_u64 as_u64
from_u64-as_u64 t n p h = (ground arith, ground arith, ground arith)

-- While the clock does not go back, and a second has less than 2 ^ 18 timestamps, `after` packs to
-- a greater number and its parts still fit.
pub after-lt :
    (unix_ts : ℕ) (prev : Timestamp)
    → IsPacked prev
    → prev.physical ≤ unix_ts
    → unix_ts < 2 ^ 46
    → prev.logical + 1 < 2 ^ 18
    → (as_u64 prev < as_u64 (after unix_ts prev)) × IsPacked (after unix_ts prev)
unfolding after as_u64
after-lt unix_ts prev p h k l = (ground arith, ground arith)

-- When the clock has gone back, `after` packs to a smaller number than the timestamp it is to
-- follow.
pub after-clock_back :
    (unix_ts : ℕ) (prev : Timestamp)
    → IsPacked prev
    → unix_ts < prev.physical
    → prev.logical + 1 < 2 ^ 18
    → as_u64 (after unix_ts prev) < as_u64 prev
unfolding after as_u64
after-clock_back unix_ts prev p h l = ground arith
