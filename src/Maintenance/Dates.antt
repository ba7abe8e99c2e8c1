-- ===== src/Maintenance/Dates.antt =====
-- Calendar dates as modules/maintenance/domain/warranty-state.ts uses them: texts that are compared as
-- texts, and days that are counted by the language's `Date`.
use itcenter.Base.Int.{ℤ, pos, negsuc}
use itcenter.Base.{
  ℕ, zero, suc, ◌+◌, ◌-◌, ◌*◌, ◌/◌, ◌%◌, Bool, false, not, ◌&&◌, ◌||◌, Option, none, some, leb,
  ◌==◌, if◌then◌else◌,
}

-- A text of the form `YYYY-MM-DD`, by its three numbers, or any other text. Texts of the form compare as
-- texts in the order of `date_key`, since their fields have fixed widths.
pub record Date : Type 0 where
  pub year : ℕ
  pub month : ℕ
  pub day : ℕ

unfoldable pub is_leap : ℕ → Bool
is_leap y = y % 4 == 0 && (not (y % 100 == 0) || y % 400 == 0)

unfoldable pub days_in_month : Bool → ℕ → ℕ
days_in_month leap zero = 0
days_in_month leap (suc zero) = 31
days_in_month leap (suc (suc zero)) = if leap then 29 else 28
days_in_month leap (suc (suc (suc zero))) = 31
days_in_month leap (suc (suc (suc (suc zero)))) = 30
days_in_month leap (suc (suc (suc (suc (suc zero))))) = 31
days_in_month leap (suc (suc (suc (suc (suc (suc zero)))))) = 30
days_in_month leap (suc (suc (suc (suc (suc (suc (suc zero))))))) = 31
days_in_month leap (suc (suc (suc (suc (suc (suc (suc (suc zero)))))))) = 31
days_in_month leap (suc (suc (suc (suc (suc (suc (suc (suc (suc zero))))))))) = 30
days_in_month leap (suc (suc (suc (suc (suc (suc (suc (suc (suc (suc zero)))))))))) = 31
days_in_month leap (suc (suc (suc (suc (suc (suc (suc (suc (suc (suc (suc zero))))))))))) = 30
days_in_month leap (suc (suc (suc (suc (suc (suc (suc (suc (suc (suc (suc (suc m)))))))))))) = 31

-- `validDate`: four, two and two digits that name a day of the calendar; `none` has another form.
unfoldable pub is_date : Date → Bool
is_date d =
    leb d.year 9999
    && (leb 1 d.month && leb d.month 12)
    && (leb 1 d.day && leb d.day (days_in_month (is_leap d.year) d.month))

unfoldable pub valid_date : Option Date → Bool
valid_date none = false
valid_date (some d) = is_date d

abbrev pub date_key : Date → ℕ
date_key d = d.year * 10000 + d.month * 100 + d.day

-- The days before a month of a year, and before a year.
unfoldable pub days_before_month : Bool → ℕ → ℕ
days_before_month leap zero = 0
days_before_month leap (suc m) = days_before_month leap m + days_in_month leap m

unfoldable pub days_before_year : ℕ → ℕ
days_before_year y = 365 * y + (y + 3) / 4 + (y + 399) / 400 - (y + 99) / 100

-- The count of a day from the first of January of the year 0, on which two dates differ by
unfoldable pub day_number : Date → ℕ
day_number d = days_before_year d.year + days_before_month (is_leap d.year) d.month + d.day

-- `daysBetween`.
unfoldable pub days_between : Date → Date → ℤ
days_between a b =
    if leb (day_number a) (day_number b)
    then pos (day_number b - day_number a)
    else negsuc (day_number a - day_number b - 1)
