-- ===== src/Time.antt =====
-- `time.Time` and `time.Duration` as nanoseconds since the epoch; the database keeps whole seconds.
use ialbum.Base.{ℕ, ◌*◌, ◌/◌}

abbrev pub Time : Type 0
Time = ℕ

abbrev pub Duration : Type 0
Duration = ℕ

abbrev pub millisecond : Duration
millisecond = 1_000_000

abbrev pub second : Duration
second = 1_000_000_000

abbrev pub minute : Duration
minute = 60 * second

abbrev pub hour : Duration
hour = 60 * minute

-- Time.Unix
abbrev pub unix : Time → ℕ
unix t = t / second
