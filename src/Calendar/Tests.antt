-- ===== src/Calendar/Tests.antt =====
-- Runs of glacier/base/date.cc and timezone.cc, and instances of their theorems.
use glacier.Common.{
  All, ◌+◌, ◌-◌, ◌^◌, ◌≤◌, ℕ, ◌≡◌, refl, arith, Bool, true, false, Option, none, some, List, [],
  ◌∷◌, get_elem?, Bytes,
}
use glacier.Common.Int.{to_int, ℤ, pos, negsuc, ◌+ℤ◌, ◌-ℤ◌, ◌*ℤ◌, ◌/ℤ◌, ◌%ℤ◌}
use glacier.Common.Text.{codes}
use glacier.Calendar.Date.{
  Tm, get_year_month_day, get_julian_day_number, of_tm, of_year_month_day, week_day, year_month_day,
  lt, eq,
}
use glacier.Calendar.Date.Shifted.{Civil, IsValid, of_civil, days_in_month, is_leap}
use glacier.Calendar.Date.Ints.{traced_year_month_day, IsInt, traced_year_month_day-IsInt}
use mathlib.Core.Logic.{◌↔◌}
use glacier.Calendar.Date.Inverse.{get_year_month_day-get_julian_day_number}
use glacier.Calendar.TimeZone.{
  Data, transition, zero_tm, find_localtime, to_utc_time, from_utc_time, utc_of_days, fill_hms,
  to_local_time,
}
use glacier.Calendar.TimeZone.Utc.{from_utc_time-to_utc_time}
use glacier.Calendar.TimeZone.Lookup.{in_force, find_localtime-in_force}
use glacier.Calendar.TimeZone.File.{read_time_zone_file, zone_of_file, empty_data}
use glacier.Calendar.TimeZone.File
use glacier.Calendar.TimeZone.ReadBack.Header.{Skipped}
use glacier.Calendar.TimeZone.ReadBack.{
  write_zone, read_time_zone_file-write_zone, zone_of_file_not_tzif,
}

arithmetic : Unit {0}
unfolding ◌+ℤ◌ ◌-ℤ◌ ◌*ℤ◌ ◌/ℤ◌ ◌%ℤ◌ get_year_month_day get_julian_day_number of_year_month_day of_tm
    week_day lt eq
arithmetic = tt

epoch_test :
    (get_julian_day_number (pos 1970) (pos 1) (pos 1) ≡ pos 2440588)
    × (week_day (of_year_month_day (pos 1970) (pos 1) (pos 1)) ≡ pos 4)
unfolding arithmetic
epoch_test = (refl, refl)

order_test :
    (lt
        (of_year_month_day (pos 2000) (pos 2) (pos 29))
        (of_year_month_day (pos 2000) (pos 3) (pos 1))
      ≡ true)
    × (eq
          (of_year_month_day (pos 2001) (pos 2) (pos 29))
          (of_year_month_day (pos 2001) (pos 3) (pos 1))
        ≡ true)
unfolding arithmetic
order_test = (refl, refl)

traced_year_month_day-IsInt_example :
    ((traced_year_month_day (pos 2459580)).0 ≡ get_year_month_day (pos 2459580))
    × (All IsInt (traced_year_month_day (pos 2459580)).1 ↔ (2459580 ≤ 2 ^ 29 - 32045))
traced_year_month_day-IsInt_example = traced_year_month_day-IsInt 2459580

abbrev leap_day : Civil
leap_day = record { year = pos 2024; month = 2; day = 29 }

leap_day-IsValid : IsValid leap_day
unfolding days_in_month is_leap
leap_day-IsValid = omega arith

leap_day_back :
    (j : ℕ) × (get_julian_day_number (pos 2024) (pos 2) (pos 29) ≡ pos j)
    × (get_year_month_day (pos j) ≡ of_civil leap_day)
leap_day_back = get_year_month_day-get_julian_day_number leap_day leap_day-IsValid (omega arith)

abbrev new_year : Tm
new_year = record zero_tm { tm_year = pos 124; tm_mday = pos 1 }

utc_test : to_utc_time (negsuc 0) true ≡ record zero_tm {
  tm_sec = pos 59;
  tm_min = pos 59;
  tm_hour = pos 23;
  tm_mday = pos 31;
  tm_mon = pos 11;
  tm_year = pos 69;
  tm_wday = pos 3;
  tm_yday = pos 364;
  tm_zone = codes "GMT";
}
unfolding arithmetic to_int to_utc_time utc_of_days fill_hms year_month_day
utc_test = refl

from_utc_time-to_utc_time_example : from_utc_time (to_utc_time (negsuc 86400) false) ≡ negsuc 86400
unfolding arithmetic
from_utc_time-to_utc_time_example =
    from_utc_time-to_utc_time (negsuc 86400) false (omega arith, omega arith)

abbrev zone : Data
zone = record {
  transitions = transition (pos 100) (pos 3700) 1 ∷ transition (pos 200) (pos 200) 0 ∷ [];
  localtimes =
      record { gmt_offset = pos 0; is_dst = false; arrb_idx = 0 }
      ∷ record { gmt_offset = pos 3600; is_dst = true; arrb_idx = 4 }
      ∷ [];
  abbreviation = codes "GMT.BST.";
}

find_localtime-in_force_example :
    find_localtime zone (transition (pos 150) (pos 0) 0) (record { compare_gmt = true })
    ≡ get_elem? zone.localtimes
        (in_force (record { compare_gmt = true }) (pos 150) 0 zone.transitions)
find_localtime-in_force_example =
    find_localtime-in_force zone (transition (pos 150) (pos 0) 0) (record { compare_gmt = true })
      (omega arith)

abbrev skipped : Skipped
skipped = record {
  version = b'2';
  reserved = codes "123456789012345";
  isgmtcnt = pos 0;
  isstdcnt = pos 0;
  leapcnt = negsuc 0;
}

read_time_zone_file-write_zone_example :
    read_time_zone_file (some (write_zone skipped zone (1 ∷ []))) empty_data ≡ some (true, zone)
unfolding arithmetic
read_time_zone_file-write_zone_example =
    read_time_zone_file-write_zone skipped zone (1 ∷ [])
      (record {
        reserved_is = refl;
        isgmtcnt_in = omega arith;
        isstdcnt_in = omega arith;
        leapcnt_in = omega arith;
      })
      (record {
        linked = (
          omega arith,
          omega arith,
          (record { gmt_offset = pos 3600; is_dst = true; arrb_idx = 4 }, refl, refl),
          (
            omega arith,
            omega arith,
            (record { gmt_offset = pos 0; is_dst = false; arrb_idx = 0 }, refl, refl),
            tt,
          ),
        );
        storable = omega arith;
        timecnt_in = omega arith;
        typecnt_in = omega arith;
        charcnt_in = omega arith;
      })

zone_of_file_not_tzif_example :
    (d : Data) × (zone_of_file (some (codes "GIF8")) ≡ some (some d))
    × (File.valid (some d) ≡ true)
    × ((gmtime : ℤ → Tm) (seconds : ℤ) → to_local_time gmtime (λ _. seconds) d seconds ≡ none)
unfolding glacier.Common.Text.str_eq
zone_of_file_not_tzif_example = zone_of_file_not_tzif (codes "GIF8") refl
