-- ===== src/Calendar/TimeZone/Utc.antt =====
-- `toUtcTime` and `fromUtcTime` of glacier/base/timezone.cc.
use glacier.Common.{
  ℕ, ◌-◌, ◌*◌, ◌/◌, ◌%◌, ◌^◌, ◌<◌, ◌+◌, if◌then◌else◌, ◌≡◌, refl, sym, ap, ◌∙◌, Bool, arith,
}
use glacier.Common.Int.{
  ℤ, pos, negsuc, pos_part, neg_part, ◌+ℤ◌, ◌-ℤ◌, ◌*ℤ◌, ◌/ℤ◌, ◌%ℤ◌, ◌≤ℤ◌, ltb_ℤ, to_int,
  to_int-fits, int_laws, eq_of_parts, *ℤ-pos, +ℤ-pos, *ℤ_parts, eq_pos_of_nonneg,
}
use glacier.Calendar.Date.{
  YearMonthDay, Tm, get_julian_day_number, get_year_month_day, of_year_month_day, year_month_day,
}
use glacier.Calendar.Date.Inverse.{
  get_julian_day_number-get_year_month_day, get_year_month_day-IsValid,
}
use glacier.Calendar.Date.Shifted.{Civil, IsValid}
use glacier.Calendar.TimeZone.{fill_hms, utc_of_days, to_utc_time, from_utc_fields, from_utc_time}

abbrev pub epoch_day : ℕ
epoch_day = 2440588

epoch_is : get_julian_day_number (pos 1970) (pos 1) (pos 1) ≡ pos epoch_day
unfolding get_julian_day_number ◌+ℤ◌ ◌-ℤ◌ ◌*ℤ◌ ◌/ℤ◌
epoch_is = refl

-- The last day whose date the code computes within an `int`.
abbrev pub last_day : ℕ
last_day = 2 ^ 29 - 32045

-- The seconds of the days from Julian day 0 to that one.
abbrev pub InDays : ℤ → Type 0
InDays s =
    (pos 0 ≤ℤ s +ℤ pos (epoch_day * 86400))
    × (s +ℤ pos (epoch_day * 86400) ≤ℤ pos (last_day * 86400 + 86399))

-- The casts of such a time change nothing.
seconds_cast : (s : ℤ) → to_int (s %ℤ 86400) ≡ s %ℤ 86400
unfolding ◌%ℤ◌
seconds_cast (pos n) = to_int-fits _ (ground arith) (ground arith)
seconds_cast (negsuc n) = to_int-fits _ (ground arith) (ground arith)

days_cast : (s : ℤ) → InDays s → to_int (s /ℤ 86400) ≡ s /ℤ 86400
unfolding ◌/ℤ◌ ◌+ℤ◌
days_cast (pos n) h = to_int-fits _ (ground (arith, h.1)) (ground arith)
days_cast (negsuc n) h = to_int-fits _ (ground arith) (ground (arith, h.0))

-- `to_utc_time` without the casts.
abbrev uncast : ℤ → Bool → Tm
uncast s yday =
    if ltb_ℤ (s %ℤ 86400) (pos 0)
    then utc_of_days (pos_part (s %ℤ 86400 +ℤ pos 86400)) (s /ℤ 86400 -ℤ pos 1) yday
    else utc_of_days (pos_part (s %ℤ 86400)) (s /ℤ 86400) yday

-- The days, and the seconds in the day.
abbrev Splits : ℤ → (Bool → Tm) → Type 0
Splits s utc =
    (d : ℤ) × (r : ℕ) × (r < 86400)
    × (s ≡ d *ℤ 86400 +ℤ pos r)
    × ((yday : Bool) → utc yday ≡ utc_of_days r d yday)

uncast-Splits : (s : ℤ) → Splits s (uncast s)
unfolding ◌+ℤ◌ ◌-ℤ◌ ◌*ℤ◌ ◌/ℤ◌ ◌%ℤ◌
uncast-Splits (pos n) = (pos (n / 86400), n % 86400, omega arith, ground arith, λ b. ground arith)
uncast-Splits (negsuc n) =
    (negsuc (n / 86400), 86399 - n % 86400, omega arith, ground arith, λ b. ground arith)

to_utc_time-Splits : (s : ℤ) → InDays s → Splits s (to_utc_time s)
unfolding to_utc_time
to_utc_time-Splits s h =
    let (d, r, hr, e, u) = uncast-Splits s in
    (d, r, hr, e, λ yday. rw (to_utc_time, seconds_cast s, days_cast s h) (u yday))

day_time :
    (r : ℕ)
    → r < 86400
    → pos (r / 60 / 60) *ℤ 3600 +ℤ pos (r / 60 % 60) *ℤ 60 +ℤ pos (r % 60) ≡ pos r
day_time r h = simp (*ℤ-pos, +ℤ-pos) (ap pos (omega arith))

-- The fields hold the time of day.
utc_of_days_fields :
    (r : ℕ) (d : ℤ) (yday : Bool) (j : ℕ)
    → d +ℤ pos epoch_day ≡ pos j
    → let t = utc_of_days r d yday in
      (t.tm_hour ≡ pos (r / 60 / 60))
      × (t.tm_min ≡ pos (r / 60 % 60))
      × (t.tm_sec ≡ pos (r % 60))
      × (t.tm_year ≡ (get_year_month_day (pos j)).year -ℤ pos 1900)
      × (t.tm_mon ≡ (get_year_month_day (pos j)).month -ℤ pos 1)
      × (t.tm_mday ≡ (get_year_month_day (pos j)).day)
unfolding utc_of_days fill_hms year_month_day of_year_month_day
utc_of_days_fields r d yday j h = rw (epoch_is, h) (refl, refl, refl, refl, refl, refl)

sub_add : (z : ℤ) (k : ℕ) → z -ℤ pos k +ℤ pos k ≡ z
sub_add z k = eq_of_parts _ _ (omega int_laws)

add_sub : (z : ℤ) (k : ℕ) → z +ℤ pos k -ℤ pos k ≡ z
add_sub z k = eq_of_parts _ _ (omega int_laws)

from_utc_time-utc_of_days :
    (r : ℕ) (d : ℤ) (yday : Bool) (j : ℕ)
    → r < 86400
    → d +ℤ pos epoch_day ≡ pos j
    → from_utc_time (utc_of_days r d yday) ≡ d *ℤ 86400 +ℤ pos r
unfolding from_utc_time from_utc_fields of_year_month_day
from_utc_time-utc_of_days r d yday j hr h =
    let (a, b, c, e, f, g) = utc_of_days_fields r d yday j h in
    rw (
      a,
      b,
      c,
      e,
      f,
      g,
      sub_add,
      sub_add,
      get_julian_day_number-get_year_month_day,
      epoch_is,
      day_time r hr,
      ← h,
      add_sub,
    )

-- From Julian day 0 on, the number of the day.
day_number :
    (s : ℤ)
    → pos 0 ≤ℤ s +ℤ pos (epoch_day * 86400)
    → (d : ℤ) (r : ℕ) → r < 86400
    → s ≡ d *ℤ 86400 +ℤ pos r
    → d +ℤ pos epoch_day ≡ pos (pos_part (d +ℤ pos epoch_day))
day_number s low d r hr e =
    eq_pos_of_nonneg _ (omega (int_laws, low, *ℤ_parts d 86400, ap pos_part e, ap neg_part e))

-- `from_utc_time` undoes `to_utc_time` at every time from Julian day 0 (4713 BC) to the end of the day
-- of number 2^29 - 32045, the last whose date the code computes within an `int`.
pub from_utc_time-to_utc_time :
    (s : ℤ) (yday : Bool) → InDays s → from_utc_time (to_utc_time s yday) ≡ s
from_utc_time-to_utc_time s yday h =
    let (d, r, hr, e, u) = to_utc_time-Splits s h in
    rw (u yday) (from_utc_time-utc_of_days r d yday _ hr (day_number s h.0 d r hr e) ∙ sym e)

-- The fields in their ranges, with a date of the calendar.
pub record IsNormal (t : Tm) (civil : Civil) : Type 0 where
  pub year_is : t.tm_year +ℤ pos 1900 ≡ civil.year
  pub month_is : t.tm_mon +ℤ pos 1 ≡ pos civil.month
  pub day_is : t.tm_mday ≡ pos civil.day
  pub date_IsValid : IsValid civil
  pub hour_in : (pos 0 ≤ℤ t.tm_hour) × (t.tm_hour ≤ℤ pos 23)
  pub min_in : (pos 0 ≤ℤ t.tm_min) × (t.tm_min ≤ℤ pos 59)
  pub sec_in : (pos 0 ≤ℤ t.tm_sec) × (t.tm_sec ≤ℤ pos 59)

utc_of_days-IsNormal :
    (r : ℕ) (d : ℤ) (yday : Bool) (j : ℕ)
    → r < 86400
    → d +ℤ pos epoch_day ≡ pos j
    → (c : Civil) × IsNormal (utc_of_days r d yday) c
utc_of_days-IsNormal r d yday j hr h =
    let (a, b, c, e, f, g) = utc_of_days_fields r d yday j h in
    let (civil, eq, v) = get_year_month_day-IsValid j in
    (
      civil,
      record {
        year_is = ap (λ z. z +ℤ pos 1900) e ∙ sub_add _ 1900 ∙ ap YearMonthDay.year eq;
        month_is = ap (λ z. z +ℤ pos 1) f ∙ sub_add _ 1 ∙ ap YearMonthDay.month eq;
        day_is = g ∙ ap YearMonthDay.day eq;
        date_IsValid = v;
        hour_in = rw a (omega arith);
        min_in = rw b (omega arith);
        sec_in = rw c (omega arith);
      },
    )

-- From Julian day 0 to the end of the day of number 2^29 - 32045, `to_utc_time` gives a date of the
-- Gregorian calendar and a time of day with every field in its range.
pub to_utc_time-IsNormal :
    (s : ℤ) (yday : Bool) → InDays s → (c : Civil) × IsNormal (to_utc_time s yday) c
to_utc_time-IsNormal s yday h =
    let (d, r, hr, e, u) = to_utc_time-Splits s h in
    rw (u yday) (utc_of_days-IsNormal r d yday _ hr (day_number s h.0 d r hr e))
