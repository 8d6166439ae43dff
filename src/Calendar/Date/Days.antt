-- ===== src/Calendar/Date/Days.antt =====
-- The dates of the calendar and the numbers of glacier/base/date.cc are the same type.
use glacier.Common.{ℕ, ◌+◌, ◌*◌, ◌/◌, ◌≤◌, ◌<◌, ◌≡◌, sym, ap, ◌∙◌, arith, Bool-cases, ltb, inl, inr}
use mathlib.Core.Path.{subst}
use mathlib.Core.Equiv.{Iso}
use mathlib.Core.HLevel.{Σ_prop_path}
use native.Mathlib.Bridge.{le_prop}
use glacier.Common.Int.{pos, negsuc, pos_part, ◌≤ℤ◌, -ℤ_parts}
use glacier.Calendar.Date.{get_year_month_day, get_julian_day_number}
use glacier.Calendar.Date.Shifted.{
  Civil, IsValid, of_civil, century_bounds, year_bounds, b_of, c_of, d_of, m_of, civil_of,
  get_year_month_day-civil_of,
}
use glacier.Calendar.Date.Inverse.{
  get_julian_day_number-get_year_month_day, civil_of-IsValid,
  get_year_month_day-get_julian_day_number,
}

-- The dates from 4713 BC on, and the numbers from that of the first of them on.
abbrev pub IsDay : Civil → Type 0
IsDay t = IsValid t × (negsuc 4711 ≤ℤ t.year)

abbrev pub CivilDay : Type 0
CivilDay = (t : Civil) × IsDay t

abbrev pub DayNumber : Type 0
DayNumber = (j : ℕ) × (38 ≤ j)

-- The year, counted from 4800 BC.
abbrev year_of : ℕ → ℕ
year_of j = b_of j * 100 + d_of j + m_of j / 10

IsDay-prop : (t : Civil) → IsProp (IsDay t)
IsDay-prop t = hlevel (le_prop)

-- On the last day in front of these the year is 4714 BC.
year_late : (j : ℕ) → 38 ≤ j → 88 ≤ year_of j
year_late j h = omega (arith, century_bounds (j + 32044), year_bounds (c_of j))

year_early : (j : ℕ) → j < 38 → year_of j ≤ 87
year_early j h = omega (arith, century_bounds (j + 32044), year_bounds (c_of j))

-- A date that a number has is that of `civil_of`.
civil_of_unique : (j : ℕ) (t : Civil) → get_year_month_day (pos j) ≡ of_civil t → civil_of j ≡ t
civil_of_unique j t e =
    let same : of_civil (civil_of j) ≡ of_civil t = sym (get_year_month_day-civil_of j) ∙ e in
    λ i. record {
      year = (same i).year;
      month = pos_part (same i).month;
      day = pos_part (same i).day;
    }

-- The number of one of these dates is one of these numbers, and the other way round.
number_late : (j : ℕ) → negsuc 4711 ≤ℤ (civil_of j).year → 38 ≤ j
number_late j low = elim (Bool-cases (ltb j 38)) [
  | inl y ↦
      let early : year_of j ≤ 87 = year_early j (ground (arith, y)) in
      absurd (omega (arith, early, low, -ℤ_parts (pos (year_of j)) (pos 4800)))
  | inr y ↦ ground (arith, y)
]

civil_of-IsDay : (j : ℕ) → 38 ≤ j → IsDay (civil_of j)
civil_of-IsDay j h =
    (civil_of-IsValid j, omega (arith, year_late j h, -ℤ_parts (pos (year_of j)) (pos 4800)))

module _ (t : Civil) (d : IsDay t) where
  number_of : ℕ
  number_of = (get_year_month_day-get_julian_day_number t d.0 d.1).0

  number_is : get_julian_day_number t.year (pos t.month) (pos t.day) ≡ pos number_of
  unfolding number_of
  number_is = (get_year_month_day-get_julian_day_number t d.0 d.1).1

  date_back : civil_of number_of ≡ t
  unfolding number_of
  date_back = civil_of_unique number_of t (get_year_month_day-get_julian_day_number t d.0 d.1).2

  number_of-late : 38 ≤ number_of
  number_of-late = number_late number_of (subst (λ c. negsuc 4711 ≤ℤ c.year) (sym date_back) d.1)

number_back : (j : ℕ) (h : 38 ≤ j) → number_of (civil_of j) (civil_of-IsDay j h) ≡ j
number_back j h = ap pos_part (
    sym (number_is (civil_of j) (civil_of-IsDay j h))
    ∙ ap (λ y. get_julian_day_number y.year y.month y.day) (sym (get_year_month_day-civil_of j))
    ∙ get_julian_day_number-get_year_month_day j)

days_iso : Iso CivilDay DayNumber
days_iso = record {
  fun = λ d. (number_of d.0 d.1, number_of-late d.0 d.1);
  inv = λ n. (civil_of n.0, civil_of-IsDay n.0 n.1);
  rinv = λ n. Σ_prop_path (λ j. le_prop) (number_back n.0 n.1);
  linv = λ d. Σ_prop_path IsDay-prop (date_back d.0 d.1);
}

-- The dates of the Gregorian calendar from 4713 BC on and the numbers from 38 on are one type, and the two
-- conversions of the code, on integers without a bound, are the two directions of the equivalence.
pub get_julian_day_number-CivilDay :
    (i : Iso CivilDay DayNumber) × ((d : CivilDay)
      → get_julian_day_number d.0.year (pos d.0.month) (pos d.0.day) ≡ pos (i.fun d).0)
    × ((n : DayNumber) → get_year_month_day (pos n.0) ≡ of_civil (i.inv n).0)
unfolding days_iso
get_julian_day_number-CivilDay =
    (days_iso, λ d. number_is d.0 d.1, λ n. get_year_month_day-civil_of n.0)
