-- ===== src/Std/Time.antt =====
-- `std::time`: an instant counts the nanoseconds since a fixed point, a duration is such a count.
use tenodera.Prelude.{ℕ, ◌-◌, ◌*◌, ◌/◌}

abbrev pub Instant : Type 0
Instant = ℕ

abbrev pub Duration : Type 0
Duration = ℕ

abbrev pub nanos_per_sec : ℕ
nanos_per_sec = 1_000_000_000

abbrev pub from_secs : ℕ → Duration
from_secs n = n * nanos_per_sec

-- Rounds down.
abbrev pub as_secs : Duration → ℕ
as_secs d = d / nanos_per_sec

-- `now.duration_since(earlier)`, and `earlier.elapsed()` with the clock at `now`: at least zero.
abbrev pub duration_since : Instant → Instant → Duration
duration_since now earlier = now - earlier
