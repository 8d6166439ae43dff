-- ===== src/Calendar/Date/Shifted.antt =====
-- The Gregorian calendar, and the arithmetic of glacier/base/date.cc, which counts years from
-- March and from the year 4801 BC.
use glacier.Common.{
  ℕ, ◌+◌, ◌-◌, ◌*◌, ◌/◌, ◌%◌, ◌≤◌, ◌≡◌, ap, ap, Bool, true, not, ◌&&◌, ◌||◌, ◌==◌, arith,
  if◌then◌else◌,
}
use glacier.Common.Int.{ℤ, pos, ◌+ℤ◌, ◌-ℤ◌, pos_part, neg_part, *ℤ-pos, /ℤ-pos, +ℤ-pos, -ℤ-pos}
use glacier.Calendar.Date.{YearMonthDay, get_year_month_day, get_julian_day_number}

-- The Gregorian rule, on the absolute value of the year.
unfoldable pub is_leap : ℤ → Bool
is_leap y = let n = pos_part y + neg_part y in n % 4 == 0 && (not (n % 100 == 0) || n % 400 == 0)

unfoldable pub days_in_month : ℤ → ℕ → ℕ
days_in_month y m =
    if m == 2
    then (if is_leap y then 29 else 28)
    else if m == 4 || m == 6 || m == 9 || m == 11
    then 30
    else 31

-- A date of the calendar, before its range is stated.
pub record Civil : Type 0 where
  pub year : ℤ
  pub month : ℕ
  pub day : ℕ

pub record IsValid (t : Civil) : Type 0 where
  pub month_in : (1 ≤ t.month) × (t.month ≤ 12)
  pub day_in : (1 ≤ t.day) × (t.day ≤ days_in_month t.year t.month)

abbrev pub of_civil : Civil → YearMonthDay
of_civil t = record { year = t.year; month = pos t.month; day = pos t.day }

-- The number of a day of month `m` from March, year `y` from 4801 BC.
abbrev pub shifted : ℕ → ℕ → ℕ → ℕ
shifted y m d = d + (m * 153 + 2) / 5 + y * 365 + y / 4 - y / 100 + y / 400

abbrev pub century : ℕ → ℕ
century a = (a * 4 + 3) / 146097

abbrev pub of_century : ℕ → ℕ
of_century a = a - century a * 146097 / 4

abbrev pub of_year : ℕ → ℕ
of_year c = c - (c * 4 + 3) / 1461 * 1461 / 4

pub century_bounds : (a : ℕ) → (century a * 146097 / 4 ≤ a) × (of_century a ≤ 36524)
century_bounds a = omega arith

pub century_leap : (a : ℕ) → 4 * of_century a ≤ 146093 + century a % 4
century_leap a = omega arith

pub year_bounds : (c : ℕ) → ((c * 4 + 3) / 1461 * 1461 / 4 ≤ c) × (of_year c ≤ 365)
year_bounds c = omega arith

pub year_below : (c : ℕ) → c ≤ 36524 → (c * 4 + 3) / 1461 ≤ 99
year_below c h = omega arith

pub split_month :
    (e : ℕ) → let m = (e * 5 + 2) / 153 in ((m * 153 + 2) / 5 ≤ e) × (e - (m * 153 + 2) / 5 ≤ 30)
split_month a = omega arith

-- the year fraction
pub years_lem :
    (b d : ℕ)
    → d ≤ 99
    → (b * 100 + d) * 365 + (b * 100 + d) / 4 - (b * 100 + d) / 100 + (b * 100 + d) / 400
      ≡ b * 146097 / 4 + d * 1461 / 4
years_lem b d h = omega arith

pub get_julian_day_number-shifted :
    (year : ℤ) (month day y : ℕ)
    → year +ℤ pos 4800 -ℤ pos ((14 - month) / 12) ≡ pos y
    → month ≤ 12
    → get_julian_day_number year (pos month) (pos day)
      ≡ pos (shifted y (month + (14 - month) / 12 * 12 - 3) day) -ℤ pos 32045
unfolding get_julian_day_number
get_julian_day_number-shifted year month day y h k =
    let k1 = month + (14 - month) / 12 * 12 in
    let k2 = day + ((k1 - 3) * 153 + 2) / 5 + y * 365 + y / 4 in
    simp (-ℤ-pos 14 month (omega arith), /ℤ-pos, *ℤ-pos, +ℤ-pos, h, -ℤ-pos k1 3 (omega arith))
      (rw (-ℤ-pos k2 (y / 100) (omega arith))
        (simp +ℤ-pos (ap (λ k. pos k -ℤ pos 32045) (omega arith))))

pub month_lem :
    (m : ℕ)
    → m ≤ 11
    → (1 ≤ m + 3 - m / 10 * 12)
      × (m + 3 - m / 10 * 12 ≤ 12)
      × ((14 - (m + 3 - m / 10 * 12)) / 12 ≡ m / 10)
month_lem m h = omega arith

pub month_back : (m : ℕ) → m ≤ 11 → m + 3 - m / 10 * 12 + m / 10 * 12 - 3 ≡ m
month_back m h = omega arith

pub is_leap_shifted :
    (y : ℕ) → is_leap (pos y -ℤ pos 4800) ≡ (y % 4 == 0 && (not (y % 100 == 0) || y % 400 == 0))
unfolding is_leap ◌-ℤ◌
is_leap_shifted y = ground arith

-- The last month of the shifted year is February, with 29 days just where day 365 exists.
pub day_fits :
    (y : ℤ) (e : ℕ)
    → e ≤ 365
    → (e ≡ 365 → is_leap y ≡ true)
    → let m = (e * 5 + 2) / 153 in e - (m * 153 + 2) / 5 + 1 ≤ days_in_month y (m + 3 - m / 10 * 12)
unfolding days_in_month
day_fits y e h leap = ground arith

pub century_unique : (b c : ℕ) → 4 * c ≤ 146093 + b % 4 → century (b * 146097 / 4 + c) ≡ b
century_unique b c h = omega arith

pub year_unique : (d e : ℕ) → 4 * e ≤ 1457 + d % 4 → ((d * 1461 / 4 + e) * 4 + 3) / 1461 ≡ d
year_unique d e h = omega arith

pub month_unique :
    (m day : ℕ)
    → m ≤ 11
    → 1 ≤ day
    → day + (m * 153 + 2) / 5 ≤ ((m + 1) * 153 + 2) / 5
    → ((day - 1 + (m * 153 + 2) / 5) * 5 + 2) / 153 ≡ m
month_unique m day h lo hi = omega arith

abbrev pub b_of : ℕ → ℕ
b_of j = century (j + 32044)

abbrev pub c_of : ℕ → ℕ
c_of j = of_century (j + 32044)

abbrev pub d_of : ℕ → ℕ
d_of j = (c_of j * 4 + 3) / 1461

abbrev pub e_of : ℕ → ℕ
e_of j = of_year (c_of j)

abbrev pub m_of : ℕ → ℕ
m_of j = (e_of j * 5 + 2) / 153

abbrev pub civil_of : ℕ → Civil
civil_of j = record {
  year = pos (b_of j * 100 + d_of j + m_of j / 10) -ℤ pos 4800;
  month = m_of j + 3 - m_of j / 10 * 12;
  day = e_of j - (m_of j * 153 + 2) / 5 + 1;
}

+ℤ-swap : (a b c : ℕ) → pos a -ℤ pos b +ℤ pos c ≡ pos (a + c) -ℤ pos b
unfolding ◌+ℤ◌ ◌-ℤ◌
+ℤ-swap a b c = ground arith

pub get_year_month_day-civil_of : (j : ℕ) → get_year_month_day (pos j) ≡ of_civil (civil_of j)
unfolding get_year_month_day
get_year_month_day-civil_of j =
    let m = m_of j in
    simp (
      /ℤ-pos,
      *ℤ-pos,
      +ℤ-pos,
      -ℤ-pos (j + 32044) (b_of j * 146097 / 4) (century_bounds (j + 32044)).0,
      -ℤ-pos (c_of j) (d_of j * 1461 / 4) (year_bounds (c_of j)).0,
      -ℤ-pos (m + 3) (m / 10 * 12) (omega (arith, year_bounds (c_of j))),
      -ℤ-pos (e_of j) ((m * 153 + 2) / 5) (split_month (e_of j)).0,
      +ℤ-swap,
    )
