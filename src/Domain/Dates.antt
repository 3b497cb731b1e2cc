-- ===== src/Domain/Dates.antt =====
-- Python's `datetime.date` as its proleptic Gregorian ordinal: 0001-01-01 is 1, a Monday.
use deep_agent_test.Prelude.{ℕ, ◌+◌, ◌%◌, leb, if◌then◌else◌}
use deep_agent_test.Result.{Result, ok, err, overflow_error}

abbrev pub Date : Type 0
Date = ℕ

-- `date.max.toordinal()`, the ordinal of 9999-12-31.
abbrev pub max_ordinal : ℕ
max_ordinal = 3652059

-- `date.weekday()`: Monday is 0 and Sunday 6.
abbrev pub weekday : Date → ℕ
weekday d = (d + 6) % 7

-- `d + timedelta(days=n)` for n of zero or more, which raises OverflowError past `date.max`.
unfoldable pub add_days : Date → ℕ → Result Date
add_days d n = if leb (d + n) max_ordinal then ok (d + n) else err overflow_error
