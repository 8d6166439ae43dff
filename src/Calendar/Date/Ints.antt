-- ===== src/Calendar/Date/Ints.antt =====
-- Where the `int`s of `getYearMonthDay` of glacier/base/date.cc are enough.
use glacier.Common.{ℕ, ◌+◌, ◌-◌, ◌*◌, ◌/◌, ◌^◌, ◌≤◌, ◌<◌, ◌≡◌, refl, List, [], ◌∷◌, All, arith}
use mathlib.Core.Logic.{◌↔◌}
use glacier.Common.Int.{
  ℤ, pos, pos_part, neg_part, ◌+ℤ◌, ◌-ℤ◌, ◌*ℤ◌, ◌/ℤ◌, *ℤ-pos, /ℤ-pos, +ℤ-pos, -ℤ-pos, int_laws,
  eq_of_parts,
}
use glacier.Calendar.Date.{YearMonthDay, get_year_month_day, get_julian_day_number}
use glacier.Calendar.Date.Shifted.{
  century_bounds, year_bounds, year_below, split_month, b_of, c_of, d_of, e_of, m_of,
}

-- `getYearMonthDay`, with every value that it computes on the way.
unfoldable pub traced_year_month_day : ℤ → YearMonthDay × List ℤ
traced_year_month_day julian_day_number =
    let a = julian_day_number +ℤ pos 32044 in
    let b = (a *ℤ 4 +ℤ pos 3) /ℤ 146097 in
    let c = a -ℤ b *ℤ 146097 /ℤ 4 in
    let d = (c *ℤ 4 +ℤ pos 3) /ℤ 1461 in
    let e = c -ℤ d *ℤ 1461 /ℤ 4 in
    let m = (e *ℤ 5 +ℤ pos 2) /ℤ 153 in
    let f = m *ℤ 153 +ℤ pos 2 in
    let y = b *ℤ 100 +ℤ d in
    let day = e -ℤ f /ℤ 5 +ℤ pos 1 in
    let month = m +ℤ pos 3 -ℤ m /ℤ 10 *ℤ 12 in
    let year = y -ℤ pos 4800 +ℤ m /ℤ 10 in
    (
      record { year = year; month = month; day = day },
      a
          ∷ (a *ℤ 4)
          ∷ (a *ℤ 4 +ℤ pos 3)
          ∷ b
          ∷ (b *ℤ 146097)
          ∷ (b *ℤ 146097 /ℤ 4)
          ∷ c
          ∷ (c *ℤ 4)
          ∷ (c *ℤ 4 +ℤ pos 3)
          ∷ d
          ∷ (d *ℤ 1461)
          ∷ (d *ℤ 1461 /ℤ 4)
          ∷ e
          ∷ (e *ℤ 5)
          ∷ (e *ℤ 5 +ℤ pos 2)
          ∷ m
          ∷ (m *ℤ 153)
          ∷ f
          ∷ (f /ℤ 5)
          ∷ (e -ℤ f /ℤ 5)
          ∷ day
          ∷ (m +ℤ pos 3)
          ∷ (m /ℤ 10)
          ∷ (m /ℤ 10 *ℤ 12)
          ∷ month
          ∷ (b *ℤ 100)
          ∷ y
          ∷ (y -ℤ pos 4800)
          ∷ year
          ∷ [],
    )

-- A value of type `int`.
abbrev pub IsInt : ℤ → Type 0
IsInt z = (pos_part z < 2 ^ 31) × (neg_part z ≤ 2 ^ 31)

year_part :
    (y n : ℕ) → y < 2 ^ 30 → n ≤ 1 → IsInt (pos y -ℤ pos 4800) × IsInt (pos y -ℤ pos 4800 +ℤ pos n)
unfolding ◌-ℤ◌ ◌+ℤ◌
year_part y n h k = (ground (arith, h), ground (arith, h, k))

small : (n : ℕ) → n < 2 ^ 31 → IsInt (pos n)
small n h = (h, omega arith)

steps_fit : (j : ℕ) → j ≤ 2 ^ 29 - 32045 → All IsInt (traced_year_month_day (pos j)).1
unfolding traced_year_month_day
steps_fit j h =
    let m = m_of j in
    let bb : b_of j * 146097 < 2 ^ 31 = omega (arith, h) in
    let cb : c_of j ≤ 36524 = (century_bounds (j + 32044)).1 in
    let db : d_of j ≤ 99 = year_below (c_of j) cb in
    let eb : e_of j ≤ 365 = (year_bounds (c_of j)).1 in
    let mb : m_of j ≤ 11 = omega (arith, eb) in
    let years =
      year_part (b_of j * 100 + d_of j) (m / 10) (omega (arith, bb, db)) (omega (arith, mb)) in
    simp
      (
        /ℤ-pos,
        *ℤ-pos,
        +ℤ-pos,
        -ℤ-pos (j + 32044) (b_of j * 146097 / 4) (century_bounds (j + 32044)).0,
        -ℤ-pos (c_of j) (d_of j * 1461 / 4) (year_bounds (c_of j)).0,
        -ℤ-pos (m + 3) (m / 10 * 12) (omega (arith, year_bounds (c_of j))),
        -ℤ-pos (e_of j) ((m * 153 + 2) / 5) (split_month (e_of j)).0,
      )
      (
        small _ (omega (arith, h)),
        (
          small _ (omega (arith, h)),
          (
            small _ (omega (arith, h)),
            (
              small _ (omega (arith, bb)),
              (
                small _ (omega (arith, bb)),
                (
                  small _ (omega (arith, bb)),
                  (
                    small _ (omega (arith, cb)),
                    (
                      small _ (omega (arith, cb)),
                      (
                        small _ (omega (arith, cb)),
                        (
                          small _ (omega (arith, db)),
                          (
                            small _ (omega (arith, db)),
                            (
                              small _ (omega (arith, db)),
                              (
                                small _ (omega (arith, eb)),
                                (
                                  small _ (omega (arith, eb)),
                                  (
                                    small _ (omega (arith, eb)),
                                    (
                                      small _ (omega (arith, mb)),
                                      (
                                        small _ (omega (arith, mb)),
                                        (
                                          small _ (omega (arith, mb)),
                                          (
                                            small _ (omega (arith, mb)),
                                            (
                                              small _ (omega (arith, eb)),
                                              (
                                                small _ (omega (arith, eb)),
                                                (
                                                  small _ (omega (arith, mb)),
                                                  (
                                                    small _ (omega (arith, mb)),
                                                    (
                                                      small _ (omega (arith, mb)),
                                                      (
                                                        small _ (omega (arith, mb)),
                                                        (
                                                          small _ (omega (arith, bb)),
                                                          (
                                                            small _ (omega (arith, bb, db)),
                                                            (years.0, (years.1, tt)),
                                                          ),
                                                        ),
                                                      ),
                                                    ),
                                                  ),
                                                ),
                                              ),
                                            ),
                                          ),
                                        ),
                                      ),
                                    ),
                                  ),
                                ),
                              ),
                            ),
                          ),
                        ),
                      ),
                    ),
                  ),
                ),
              ),
            ),
          ),
        ),
      )

steps_overflow : (j : ℕ) → All IsInt (traced_year_month_day (pos j)).1 → j ≤ 2 ^ 29 - 32045
unfolding traced_year_month_day
steps_overflow j h =
    let (a, from_b) = h in
    let (b, from_c) = from_b in
    let (c, rest) = from_c in
    let fits : IsInt (pos ((j + 32044) * 4 + 3)) = simp (+ℤ-pos, *ℤ-pos) at c in
    omega (arith, fits.0)

-- `getYearMonthDay` of a day from Julian day 0 on computes within an `int` exactly up to the day of number
-- 2^29 - 32045: every value on the way fits, and from the next day on one does not.
pub traced_year_month_day-IsInt :
    (j : ℕ)
    → ((traced_year_month_day (pos j)).0 ≡ get_year_month_day (pos j))
      × (All IsInt (traced_year_month_day (pos j)).1 ↔ (j ≤ 2 ^ 29 - 32045))
unfolding traced_year_month_day get_year_month_day
traced_year_month_day-IsInt j = (refl, (steps_overflow j, steps_fit j))

-- `getJulianDayNumber`, with every value that it computes on the way.
unfoldable pub traced_julian_day_number : ℤ → ℤ → ℤ → ℤ × List ℤ
traced_julian_day_number year month day =
    let a = (pos 14 -ℤ month) /ℤ 12 in
    let y = year +ℤ pos 4800 -ℤ a in
    let m = month +ℤ a *ℤ 12 -ℤ pos 3 in
    let f = m *ℤ 153 +ℤ pos 2 in
    let days = day +ℤ f /ℤ 5 in
    let years = days +ℤ y *ℤ 365 in
    let leaps = years +ℤ y /ℤ 4 -ℤ y /ℤ 100 +ℤ y /ℤ 400 in
    (
      leaps -ℤ pos 32045,
      (pos 14 -ℤ month)
          ∷ a
          ∷ (year +ℤ pos 4800)
          ∷ y
          ∷ (a *ℤ 12)
          ∷ (month +ℤ a *ℤ 12)
          ∷ m
          ∷ (m *ℤ 153)
          ∷ f
          ∷ (f /ℤ 5)
          ∷ days
          ∷ (y *ℤ 365)
          ∷ years
          ∷ (y /ℤ 4)
          ∷ (years +ℤ y /ℤ 4)
          ∷ (y /ℤ 100)
          ∷ (years +ℤ y /ℤ 4 -ℤ y /ℤ 100)
          ∷ (y /ℤ 400)
          ∷ leaps
          ∷ (leaps -ℤ pos 32045)
          ∷ [],
    )

less : (n k : ℕ) → n < 2 ^ 31 → k < 2 ^ 31 → IsInt (pos n -ℤ pos k)
unfolding ◌-ℤ◌
less n k h l = (ground (arith, h), ground (arith, l))

-- `getJulianDayNumber` computes within an `int` in each of the 5000000 years from 4800 BC on.
pub traced_julian_day_number-IsInt :
    (z month day : ℕ)
    → 1 ≤ z
    → z ≤ 5000000
    → 1 ≤ month
    → month ≤ 12
    → day ≤ 31
    → let t = traced_julian_day_number (pos z -ℤ pos 4800) (pos month) (pos day) in
      (t.0 ≡ get_julian_day_number (pos z -ℤ pos 4800) (pos month) (pos day)) × All IsInt t.1
unfolding traced_julian_day_number get_julian_day_number
traced_julian_day_number-IsInt z month day h k lo hi d =
    let y = z - (14 - month) / 12 in
    let yb : y ≤ 5000000 = omega (arith, k) in
    let mb : month + (14 - month) / 12 * 12 ≤ 14 = omega (arith, lo, hi) in
    let fb : ((month + (14 - month) / 12 * 12 - 3) * 153 + 2) / 5 ≤ 337 = omega (arith, mb) in
    let k1 = month + (14 - month) / 12 * 12 in
    let k2 = day + ((k1 - 3) * 153 + 2) / 5 + y * 365 + y / 4 in
    (
      refl,
      simp
          (
            back z,
            -ℤ-pos 14 month (omega (arith, hi)),
            /ℤ-pos,
            *ℤ-pos,
            +ℤ-pos,
            -ℤ-pos z ((14 - month) / 12) (omega (arith, h, lo)),
            -ℤ-pos k1 3 (omega (arith, lo, hi)),
            -ℤ-pos k2 (y / 100) (omega arith),
          )
          (
            small _ (omega (arith, lo)),
            (
              small _ (omega (arith, lo)),
              (
                small _ (omega (arith, k)),
                (
                  small _ (omega (arith, yb)),
                  (
                    small _ (omega (arith, mb)),
                    (
                      small _ (omega (arith, mb)),
                      (
                        small _ (omega (arith, mb)),
                        (
                          small _ (omega (arith, mb)),
                          (
                            small _ (omega (arith, mb)),
                            (
                              small _ (omega (arith, fb)),
                              (
                                small _ (omega (arith, fb, d)),
                                (
                                  small _ (omega (arith, yb)),
                                  (
                                    small _ (omega (arith, fb, d, yb)),
                                    (
                                      small _ (omega (arith, yb)),
                                      (
                                        small _ (omega (arith, fb, d, yb)),
                                        (
                                          small _ (omega (arith, yb)),
                                          (
                                            small _ (omega (arith, fb, d, yb)),
                                            (
                                              small _ (omega (arith, yb)),
                                              (
                                                small _ (omega (arith, fb, d, yb)),
                                                (
                                                  less (k2 - y / 100 + y / 400) 32045
                                                      (omega (arith, fb, d, yb)) (omega arith),
                                                  tt,
                                                ),
                                              ),
                                            ),
                                          ),
                                        ),
                                      ),
                                    ),
                                  ),
                                ),
                              ),
                            ),
                          ),
                        ),
                      ),
                    ),
                  ),
                ),
              ),
            ),
          ),
    )
  where
    back : (z : ℕ) → pos z -ℤ pos 4800 +ℤ pos 4800 ≡ pos z
    back z = eq_of_parts _ _ (omega int_laws)
