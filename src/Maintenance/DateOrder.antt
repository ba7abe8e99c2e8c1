-- ===== src/Maintenance/DateOrder.antt =====
-- The order of dates as texts, and the order of their days.
use itcenter.Base.{
  ℕ, zero, suc, ◌+◌, ◌-◌, ◌≤◌, ◌<◌, ◌≡◌, refl, ap, subst, ◌↔◌, inl, inr, Bool, true, false, arith,
  ltb, leb, Bool-cases,
}
use native.Mathlib.Nat.{add-zero}
use itcenter.Maintenance.Dates.{
  Date, is_leap, days_in_month, is_date, date_key, days_before_month, days_before_year, day_number,
}

abbrev leap_day : Bool → ℕ
leap_day true = 1
leap_day false = 0

days_before_year-suc :
    (y : ℕ) → days_before_year (y + 1) ≡ days_before_year y + 365 + leap_day (is_leap y)
unfolding days_before_year is_leap
days_before_year-suc y = ground arith

days_before_year_mono :
    (y k : ℕ) → days_before_year y + 365 + leap_day (is_leap y) ≤ days_before_year (y + 1 + k)
days_before_year_mono y zero =
    omega (arith, days_before_year-suc y, ap days_before_year (add-zero (y + 1)))
days_before_year_mono y (suc k) = omega (
  arith,
  days_before_year_mono y k,
  days_before_year-suc (y + 1 + k),
  ap days_before_year (shift y k),
)
  where
    shift : (y k : ℕ) → y + 1 + suc k ≡ y + 1 + k + 1
    shift y k = omega arith

days_before_month_mono :
    (leap : Bool) (m k : ℕ)
    → days_before_month leap m + days_in_month leap m ≤ days_before_month leap (suc (k + m))
unfolding days_before_month
days_before_month_mono leap m zero =
    omega (arith, ap (days_before_month leap) (zero_add m), ap (days_in_month leap) (zero_add m))
  where
    zero_add : (m : ℕ) → 0 + m ≡ m
    zero_add m = omega arith
days_before_month_mono leap m (suc k) =
    omega (arith, days_before_month_mono leap m k, ap (days_before_month leap) (shift m k))
  where
    shift : (m k : ℕ) → suc k + m ≡ suc (k + m)
    shift m k = omega arith

days_before_month-13 : (leap : Bool) → days_before_month leap 13 ≡ 365 + leap_day leap
unfolding days_before_month days_in_month
days_before_month-13 true = refl
days_before_month-13 false = refl

days_before_month-year :
    (leap : Bool) (m : ℕ)
    → m ≤ 12
    → days_before_month leap m + days_in_month leap m ≤ 365 + leap_day leap
days_before_month-year leap m h = omega (
  arith,
  days_before_month_mono leap m (12 - m),
  days_before_month-13 leap,
  ap (days_before_month leap) (last m h),
)
  where
    last : (m : ℕ) → m ≤ 12 → suc (12 - m + m) ≡ 13
    last m h = omega arith

later_year :
    (a b : Date) → is_date a ≡ true → a.year < b.year → 1 ≤ b.day → day_number a < day_number b
unfolding is_date day_number
later_year a b va h hb =
    omega
      (arith, in_year, days_before_year_mono a.year (b.year - a.year - 1), ap days_before_year at)
  where
    in_year : days_before_month (is_leap a.year) a.month + a.day ≤ 365 + leap_day (is_leap a.year)
    in_year = ground (arith, days_before_month-year (is_leap a.year) a.month)

    at : a.year + 1 + (b.year - a.year - 1) ≡ b.year
    at = omega arith

later_month :
    (leap : Bool) (m n d : ℕ)
    → m < n
    → d ≤ days_in_month leap m
    → days_before_month leap m + d ≤ days_before_month leap n
later_month leap m n d h hd =
    omega (arith, days_before_month_mono leap m (n - m - 1), ap (days_before_month leap) at)
  where
    at : suc (n - m - 1 + m) ≡ n
    at = omega arith

same_year :
    (a b : Date)
    → is_date a ≡ true
    → is_date b ≡ true
    → a.year ≡ b.year
    → a.month < b.month
    → day_number a < day_number b
unfolding is_date day_number
same_year a b va vb e m = omega (
  arith,
  ap days_before_year e,
  ap (λ y. days_before_month (is_leap y) a.month) e,
  later_month (is_leap b.year) a.month b.month a.day m days,
  first,
)
  where
    first : 1 ≤ b.day
    first = ground arith

    days : a.day ≤ days_in_month (is_leap b.year) a.month
    days = subst (λ y. a.day ≤ days_in_month (is_leap y) a.month) e (ground arith)

same_month :
    (a b : Date) → a.year ≡ b.year → a.month ≡ b.month → day_number a + b.day ≡ day_number b + a.day
unfolding day_number
same_month a b e m = omega (
  arith,
  ap days_before_year e,
  ap (λ y. days_before_month (is_leap y) a.month) e,
  ap (days_before_month (is_leap b.year)) m,
)

days_in_month-le : (leap : Bool) (m : ℕ) → days_in_month leap m ≤ 31
unfolding days_in_month
days_in_month-le leap m = ground arith

-- The fields of a valid date are those of its form.
pub record Fields (d : Date) : Type 0 where
  pub month_pos : 1 ≤ d.month
  pub month_le : d.month ≤ 12
  pub day_pos : 1 ≤ d.day
  pub day_le : d.day ≤ 31

is_date-Fields : (d : Date) → is_date d ≡ true → Fields d
unfolding is_date
is_date-Fields d v = record {
  month_pos = ground arith;
  month_le = ground arith;
  day_pos = ground arith;
  day_le = ground (arith, days_in_month-le (is_leap d.year) d.month);
}

-- The calendar counts the days of valid dates in the order of the dates as texts.
pub day_number_mono :
    (a b : Date)
    → is_date a ≡ true
    → is_date b ≡ true
    → date_key a < date_key b
    → day_number a < day_number b
unfolding is_date
day_number_mono a b va vb h = elim (Bool-cases (ltb a.year b.year)) [
  | inl y ↦ later_year a b va (ground arith) fb.day_pos
  | inr y ↦ elim (Bool-cases (ltb a.month b.month)) [
    | inl m ↦ same_year a b va vb (year y) (ground arith)
    | inr m ↦ omega (arith, same_month a b (year y) (month (year y) m), year y, month (year y) m, h)
  ]
]
  where
    fa : Fields a
    fa = is_date-Fields a va

    fb : Fields b
    fb = is_date-Fields b vb

    year : ltb a.year b.year ≡ false → a.year ≡ b.year
    year y = ground (
      arith, fa.month_pos, fa.month_le, fa.day_pos, fa.day_le, fb.month_pos, fb.month_le,
      fb.day_pos, fb.day_le,
    )

    month : a.year ≡ b.year → ltb a.month b.month ≡ false → a.month ≡ b.month
    month e m = ground (
      arith, fa.month_pos, fa.month_le, fa.day_pos, fa.day_le, fb.month_pos, fb.month_le,
      fb.day_pos, fb.day_le,
    )

same_key :
    (a b : Date)
    → is_date a ≡ true
    → is_date b ≡ true
    → date_key a ≡ date_key b
    → day_number a ≡ day_number b
same_key a b va vb h = omega (arith, same_month a b year month, year, month, h)
  where
    fa : Fields a
    fa = is_date-Fields a va

    fb : Fields b
    fb = is_date-Fields b vb

    year : a.year ≡ b.year
    year = ground (
      arith, fa.month_pos, fa.month_le, fa.day_pos, fa.day_le, fb.month_pos, fb.month_le,
      fb.day_pos, fb.day_le,
    )

    month : a.month ≡ b.month
    month = ground (
      arith, fa.month_pos, fa.month_le, fa.day_pos, fa.day_le, fb.month_pos, fb.month_le,
      fb.day_pos, fb.day_le,
    )

-- One date is not after another as a text exactly if its day is not after the other's.
pub day_number_iff :
    (a b : Date)
    → is_date a ≡ true
    → is_date b ≡ true
    → (leb (date_key a) (date_key b) ≡ true) ↔ (day_number a ≤ day_number b)
day_number_iff a b va vb = (λ h. forth h, λ h. back h)
  where
    forth : leb (date_key a) (date_key b) ≡ true → day_number a ≤ day_number b
    forth h = elim (Bool-cases (ltb (date_key a) (date_key b))) [
      | inl k ↦ omega (arith, day_number_mono a b va vb (ground arith))
      | inr k ↦ omega (arith, same_key a b va vb (ground arith))
    ]

    back : day_number a ≤ day_number b → leb (date_key a) (date_key b) ≡ true
    back h = elim (Bool-cases (leb (date_key a) (date_key b))) [
      | inl k ↦ k
      | inr k ↦ absurd (omega (arith, day_number_mono b a vb va (ground arith), h))
    ]
