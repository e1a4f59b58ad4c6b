-- ===== src/Dates.antt =====
-- The dates of src/publisher/compose.ts and src/publisher/finalize.ts: `new Date(ms)` and
-- `Date.prototype.toISOString`, for the milliseconds since the Unix epoch of a date from 1970 on.
use compact_multi_part_event.Prelude.{
  ℕ, zero, suc, ◌+◌, ◌-◌, ◌*◌, ◌/◌, ◌%◌, [], ◌∷◌, ◌++◌, Text, text, ltb, leb, if◌then◌else◌,
  range_error, Result, ok, throw,
}

-- A date, or the `Invalid Date`.
pub data Date : Type 0 where
  date_at : (ms : ℕ) → Date
  invalid_date : Date

-- The dates reach 100,000,000 days from the epoch.
abbrev pub max_date_ms : ℕ
max_date_ms = 8640000000000000

-- `new Date(ms)`.
unfoldable pub new_date : ℕ → Date
new_date ms = if leb ms max_date_ms then date_at ms else invalid_date

-- The last `width` decimal digits.
unfoldable pub padded : ℕ → ℕ → Text
padded zero n = []
padded (suc width) n = padded width (n / 10) ++ (48 + n % 10) ∷ []

pub record Day : Type 0 where
  pub year : ℕ
  pub month : ℕ
  pub day : ℕ

-- The civil day of a number of days since the epoch, by eras of 400 years that begin in March.
unfoldable pub civil_day : ℕ → Day
civil_day days =
    let z : ℕ = days + 719468 in
    let era : ℕ = z / 146097 in
    let doe : ℕ = z % 146097 in
    let yoe : ℕ = (doe + doe / 36524 - doe / 1460 - doe / 146096) / 365 in
    let doy : ℕ = doe - (365 * yoe + yoe / 4 - yoe / 100) in
    let mp : ℕ = (5 * doy + 2) / 153 in
    let month : ℕ = if ltb mp 10 then mp + 3 else mp - 9 in
    record {
      year = yoe + era * 400 + (if leb month 2 then 1 else 0);
      month = month;
      day = doy - (153 * mp + 2) / 5 + 1;
    }

unfoldable pub year_text : ℕ → Text
year_text year = if ltb year 10000 then padded 4 year else b'+' ∷ padded 6 year

unfoldable pub date_text : ℕ → Text
date_text ms =
    let date = civil_day (ms / 86400000) in
    year_text date.year
    ++ b'-' ∷ padded 2 date.month
    ++ b'-' ∷ padded 2 date.day
    ++ b'T' ∷ padded 2 (ms / 3600000 % 24)
    ++ b':' ∷ padded 2 (ms / 60000 % 60)
    ++ b':' ∷ padded 2 (ms / 1000 % 60)
    ++ b'.' ∷ padded 3 (ms % 1000)
    ++ b'Z' ∷ []

-- `toISOString`, which throws on the invalid date.
unfoldable pub iso_text : Date → Result Text
iso_text (date_at ms) = ok (date_text ms)
iso_text invalid_date = throw (range_error (text "Invalid time value"))
