-- ===== src/Calendar/Date/Inverse.antt =====
-- The two conversions of glacier/base/date.cc against the Gregorian calendar.
use glacier.Common.{ℕ, ◌+◌, ◌-◌, ◌*◌, ◌/◌, ◌%◌, ◌≤◌, ◌≡◌, ◌∙◌, ap, sym, true, arith, if◌then◌else◌}
use glacier.Common.Int.{
  pos, negsuc, pos_part, neg_part, ◌+ℤ◌, ◌-ℤ◌, ◌≤ℤ◌, int_laws, eq_pos_of_nonneg, -ℤ_parts, -ℤ-pos,
}
use glacier.Calendar.Date.{get_year_month_day, get_julian_day_number}
use glacier.Calendar.Date.Shifted.{
  is_leap, days_in_month, Civil, IsValid, of_civil, shifted, century_bounds, century_leap,
  year_bounds, year_below, split_month, years_lem, get_julian_day_number-shifted, month_lem,
  month_back, is_leap_shifted, day_fits, century_unique, year_unique, month_unique, b_of, c_of,
  d_of, e_of, m_of, civil_of, get_year_month_day-civil_of,
}

module _ (j : ℕ) where
  m_le : m_of j ≤ 11
  m_le = omega (arith, year_bounds (c_of j))

  d_le : d_of j ≤ 99
  d_le = year_below (c_of j) (century_bounds (j + 32044)).1

  year_back :
      pos (b_of j * 100 + d_of j + m_of j / 10)
        -ℤ pos 4800
        +ℤ pos 4800
        -ℤ pos ((14 - (m_of j + 3 - m_of j / 10 * 12)) / 12)
      ≡ pos (b_of j * 100 + d_of j)
  year_back = rw ((month_lem (m_of j) m_le).2) (omega int_laws)

  total : shifted (b_of j * 100 + d_of j) (m_of j) (e_of j - (m_of j * 153 + 2) / 5 + 1) ≡ j + 32045
  total = omega (
    arith,
    split_month (e_of j),
    century_bounds (j + 32044),
    year_bounds (c_of j),
    years_lem (b_of j) (d_of j) d_le,
  )

  last_day : e_of j ≡ 365 → (d_of j % 4 ≡ 3) × ((d_of j ≡ 99) → b_of j % 4 ≡ 3)
  last_day h =
      (omega arith, λ k. omega (arith, century_bounds (j + 32044), century_leap (j + 32044)))

  leap_day : e_of j ≡ 365 → is_leap (pos (b_of j * 100 + d_of j + m_of j / 10) -ℤ pos 4800) ≡ true
  leap_day h =
      is_leap_shifted (b_of j * 100 + d_of j + m_of j / 10) ∙ ground (arith, last_day h, d_le)

-- Every Julian day number from 0 up comes back from its date.
pub get_julian_day_number-get_year_month_day :
    (j : ℕ)
    → let t = get_year_month_day (pos j) in get_julian_day_number t.year t.month t.day ≡ pos j
get_julian_day_number-get_year_month_day j = rw (get_year_month_day-civil_of j) (
    get_julian_day_number-shifted _ _ _ _ (year_back j) (omega (arith, month_lem _ (m_le j)))
    ∙ rw
        (
          (month_lem _ (m_le j)).2,
          month_back _ (m_le j),
          total j,
          -ℤ-pos (j + 32045) 32045 (omega arith),
        )
        (ap pos (omega arith)))

pub civil_of-IsValid : (j : ℕ) → IsValid (civil_of j)
civil_of-IsValid j = record {
  month_in = omega (arith, month_lem (m_of j) (m_le j));
  day_in = (omega arith, day_fits _ (e_of j) (year_bounds (c_of j)).1 (leap_day j));
}

-- The date of a Julian day number from 0 up is a date of the Gregorian calendar.
pub get_year_month_day-IsValid :
    (j : ℕ) → (t : Civil) × (get_year_month_day (pos j) ≡ of_civil t) × IsValid t
get_year_month_day-IsValid j = (civil_of j, get_year_month_day-civil_of j, civil_of-IsValid j)

-- The month counted from March, of a date of the calendar.
abbrev carry : Civil → ℕ
carry t = (14 - t.month) / 12

abbrev from_march : Civil → ℕ
from_march t = t.month + carry t * 12 - 3

month_room :
    (t : Civil)
    → IsValid t
    → (from_march t ≤ 11)
      × (carry t ≡ from_march t / 10)
      × (t.month ≡ from_march t + 3 - from_march t / 10 * 12)
month_room t v = omega (arith, v.month_in)

day_room :
    (t : Civil)
    → IsValid t
    → (t.day + (from_march t * 153 + 2) / 5 ≤ ((from_march t + 1) * 153 + 2) / 5)
      × (t.day + (from_march t * 153 + 2) / 5 ≤ (if is_leap t.year then 366 else 365))
unfolding days_in_month
day_room t v = ground (arith, v.month_in, v.day_in)

-- The day of the shifted year that starts in March.
abbrev day_index : Civil → ℕ
day_index t = t.day - 1 + (from_march t * 153 + 2) / 5

-- The date whose shifted year is `y` comes back from its number.
module _ (t : Civil) (v : IsValid t) (y : ℕ) (h : t.year +ℤ pos 4800 -ℤ pos (carry t) ≡ pos y) where
  year_is : t.year ≡ pos (y + from_march t / 10) -ℤ pos 4800
  year_is = omega (int_laws, ap pos_part h, ap neg_part h, month_room t v)

  leap_end : day_index t ≡ 365 → (y % 4 ≡ 3) × (y % 100 ≡ 99 → y / 100 % 4 ≡ 3)
  leap_end e =
      let last : from_march t ≡ 11 = omega (arith, month_room t v, day_room t v) in
      let year : t.year ≡ pos (y + 1) -ℤ pos 4800 =
        omega (int_laws, ap pos_part year_is, ap neg_part year_is, last) in
      ground (arith, ap is_leap year ∙ is_leap_shifted (y + 1), (day_room t v).1, v.day_in)

  day_index_le : day_index t ≤ 365
  day_index_le = ground (arith, (day_room t v).1, v.day_in)

  day_last : 4 * day_index t ≤ 1457 + y % 100 % 4
  day_last = grind (arith, leap_end, day_index_le)

  century_last : 4 * (y % 100 * 1461 / 4 + day_index t) ≤ 146093 + y / 100 % 4
  century_last = grind (arith, leap_end, day_index_le)

  number :
      get_julian_day_number t.year (pos t.month) (pos t.day)
      ≡ pos (y * 365 + y / 4 - y / 100 + y / 400 + day_index t + 1) -ℤ pos 32045
  number =
      get_julian_day_number-shifted t.year t.month t.day y h (omega (arith, v.month_in))
      ∙ ap (λ k. pos k -ℤ pos 32045) (omega (arith, v.day_in))

  abbrev found : ℕ
  found = y * 365 + y / 4 - y / 100 + y / 400 + day_index t + 1 - 32045

  module _ (low : negsuc 4711 ≤ℤ t.year) where
    enough : 32045 ≤ y * 365 + y / 4 - y / 100 + y / 400 + day_index t + 1
    enough =
        let parts = -ℤ_parts (pos (y + from_march t / 10)) (pos 4800) in
        omega (arith, ap pos_part year_is, ap neg_part year_is, parts, v.month_in, low)

    number_found : get_julian_day_number t.year (pos t.month) (pos t.day) ≡ pos found
    number_found = number ∙ -ℤ-pos _ 32045 enough

    a_is : found + 32044 ≡ y / 100 * 146097 / 4 + (y % 100 * 1461 / 4 + day_index t)
    a_is = omega (arith, enough)

    b_is : b_of found ≡ y / 100
    b_is = rw a_is (century_unique (y / 100) _ century_last)

    c_is : c_of found ≡ y % 100 * 1461 / 4 + day_index t
    c_is = omega (arith, a_is, b_is)

    d_is : d_of found ≡ y % 100
    d_is = rw c_is (year_unique (y % 100) (day_index t) day_last)

    e_is : e_of found ≡ day_index t
    e_is = omega (arith, c_is, d_is)

    m_is : m_of found ≡ from_march t
    m_is =
        rw e_is (month_unique (from_march t) t.day (month_room t v).0 v.day_in.0 (day_room t v).0)

    found_is : civil_of found ≡ t
    found_is = λ i. record {
      year =
          (ap (λ k. pos k -ℤ pos 4800)
                (let shift : b_of found * 100 + d_of found + m_of found / 10
                      ≡ y + from_march t / 10 =
                    omega (arith, b_is, d_is, m_is) in
                  shift)
              ∙ sym year_is)
            i;
      month = month_is i;
      day = day_is i;
    }
      where
        month_is : m_of found + 3 - m_of found / 10 * 12 ≡ t.month
        month_is = omega (arith, m_is, month_room t v)

        day_is : e_of found - (m_of found * 153 + 2) / 5 + 1 ≡ t.day
        day_is = omega (arith, e_is, m_is, v.day_in)

-- A year that is not below 4800 BC, counted from March.
shifted_year :
    (t : Civil)
    → IsValid t
    → negsuc 4711 ≤ℤ t.year
    → (y : ℕ) × (t.year +ℤ pos 4800 -ℤ pos (carry t) ≡ pos y)
shifted_year t v low = (
  pos_part (t.year +ℤ pos 4800 -ℤ pos (carry t)),
  eq_pos_of_nonneg _ (omega (int_laws, v.month_in, low)),
)

-- From 4713 BC on, a date of the calendar has a number from 0 up, and comes back from it.
pub get_year_month_day-get_julian_day_number :
    (t : Civil)
    → IsValid t
    → negsuc 4711 ≤ℤ t.year
    → (j : ℕ) × (get_julian_day_number t.year (pos t.month) (pos t.day) ≡ pos j)
      × (get_year_month_day (pos j) ≡ of_civil t)
get_year_month_day-get_julian_day_number t v low =
    let (y, h) = shifted_year t v low in
    (
      found t v y h,
      number_found t v y h low,
      get_year_month_day-civil_of _ ∙ ap (λ s. of_civil s) (found_is t v y h low),
    )
