-- ===== src/Calendar/Date/OfTm.antt =====
-- The constructor of `Date` from a `struct tm`, whose years count from 1900.
use glacier.Common.{ℕ, ◌+◌, ◌-◌, ◌*◌, ◌/◌, ◌≤◌, ◌≡◌, ◌∙◌, arith}
use glacier.Common.Int.{pos, pos_part, ◌+ℤ◌, ◌-ℤ◌, +ℤ-pos, -ℤ-pos}
use glacier.Calendar.Date.{Tm, get_julian_day_number, of_tm, of_year_month_day}
use glacier.Calendar.Date.Shifted.{shifted, get_julian_day_number-shifted}

number_of :
    (y month day : ℕ)
    → month ≤ 12
    → 1 ≤ day
    → let k = (14 - month) / 12 in
      get_julian_day_number (pos y) (pos month) (pos day)
      ≡ pos (shifted (y + 4800 - k) (month + k * 12 - 3) day - 32045)
number_of y month day h d =
    let k = (14 - month) / 12 in
    get_julian_day_number-shifted (pos y) month day (y + 4800 - k) shift h
    ∙ -ℤ-pos (shifted (y + 4800 - k) (month + k * 12 - 3) day) 32045 (omega arith)
  where
    shift : pos y +ℤ pos 4800 -ℤ pos ((14 - month) / 12) ≡ pos (y + 4800 - (14 - month) / 12)
    shift = rw (+ℤ-pos y 4800) (-ℤ-pos (y + 4800) ((14 - month) / 12) (omega arith))

-- For a broken-down time from 1900 on, the date lies more than 25,000 days after the one that the
-- time stands for.
pub of_tm_late :
    (t : Tm) (y month day : ℕ)
    → t.tm_year ≡ pos y
    → t.tm_mon +ℤ pos 1 ≡ pos month
    → t.tm_mday ≡ pos day
    → month ≤ 12
    → 1 ≤ day
    → let right = of_year_month_day (pos (y + 1900)) (pos month) (pos day) in
      pos_part right.julian_day_number + 25000 ≤ pos_part (of_tm t).julian_day_number
unfolding of_tm of_year_month_day
of_tm_late t y month day hy hm hd h d =
    rw
      (
        hy,
        hm,
        hd,
        +ℤ-pos y 1970,
        number_of (y + 1900) month day h d,
        number_of (y + 1970) month day h d,
      )
      (omega arith)
