-- ===== src/Timestamp.antt =====
-- include/Timestamp.h and src/Timestamp.cpp. A `system_clock::time_point` is its count of
-- nanoseconds since the epoch; times before the epoch do not occur.
use net_module.Base.{ℕ, ◌+◌, ◌*◌, ◌/◌, ◌≤◌, ◌<◌, ◌≡◌, List, arith}
use net_module.System.{ClockApi}

pub record Timestamp : Type 0 where
  pub ticks : ℕ

abbrev pub ticks_per_second : ℕ
ticks_per_second = 1_000_000_000

-- `Timestamp(int64_t times)`, by `from_time_t`.
unfoldable pub of_seconds : ℕ → Timestamp
of_seconds times = record { ticks = times * ticks_per_second }

-- `Timestamp()` and `now()`, by `system_clock::now`.
unfoldable pub now : {S : Type 0} → ClockApi S → S → Timestamp × S
now clock s = let (t, s') = clock.now s in (record { ticks = t }, s')

-- `toInt`, by `to_time_t`.
unfoldable pub to_int : Timestamp → ℕ
to_int t = t.ticks / ticks_per_second

-- `toString`: `ctime` is the C library's.
unfoldable pub to_string : (ℕ → List ℕ) → Timestamp → List ℕ
to_string ctime t = ctime (t.ticks / ticks_per_second)

-- Whole seconds survive, and reading a clock loses less than a second.
pub to_int-of_seconds :
    (times : ℕ) (t : Timestamp)
    → (to_int (of_seconds times) ≡ times)
      × ((of_seconds (to_int t)).ticks ≤ t.ticks)
      × (t.ticks < (of_seconds (to_int t)).ticks + ticks_per_second)
unfolding to_int of_seconds
to_int-of_seconds times t = (omega arith, omega arith, omega arith)
