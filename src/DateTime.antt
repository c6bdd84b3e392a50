-- ===== src/DateTime.antt =====
-- Python's `datetime`, as the source uses it: microseconds from `datetime.min`, and whether
-- `utcoffset()` is not `None`. The source compares and shifts only values without an offset.
use fast_api_scaff.Prelude.{ℕ, ◌+◌, ◌*◌, Bool, Option, none, some, leb, if◌then◌else◌}

pub record DateTime : Type 0 where
  pub ticks : ℕ
  pub aware : Bool

-- `datetime.max`: the last microsecond of the year 9999.
abbrev pub max_ticks : ℕ
max_ticks = 315537897599999999

-- `value + timedelta(seconds=seconds)`; `none` is the `OverflowError`.
unfoldable pub add_seconds : DateTime → ℕ → Option DateTime
add_seconds value seconds =
    if leb (value.ticks + seconds * 1000000) max_ticks
    then some (record value { ticks = value.ticks + seconds * 1000000 })
    else none
