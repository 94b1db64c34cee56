-- ===== src/Shared/Time.antt =====
-- Go's `time`: an instant is the number of nanoseconds since the zero `time.Time`, and a duration
-- that is not negative a number of nanoseconds.
use Prim.Native.Nat.{ℕ, ◌-◌, ◌*◌, min}

abbrev pub Instant : Type 0
Instant = ℕ

abbrev pub Duration : Type 0
Duration = ℕ

-- The greatest `time.Duration`.
abbrev pub max_duration : Duration
max_duration = 0x7fff_ffff_ffff_ffff

-- `now.Sub(t)` in a test `now.Sub(t) > window` with a window that is not negative: `Sub` saturates,
-- and a negative difference passes no such test, as 0 does not.
abbrev pub since : Instant → Instant → Duration
since now t = min (now - t) max_duration

abbrev pub second : Duration
second = 1_000_000_000

abbrev pub minute : Duration
minute = 60 * second

abbrev pub hour : Duration
hour = 60 * minute
