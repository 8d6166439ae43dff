-- ===== src/Calendar/Date.antt =====
-- glacier/base/date.cc and date.h. Every `int` is an integer of ℤ with C's truncating division; no
-- step leaves 32 bits while the Julian day number is at most 2 ^ 29 - 32045, as Ints shows for `getYearMonthDay`.
pub mod Shifted
pub mod Inverse
pub mod OfTm
pub mod Days
pub mod Ints
use glacier.Common.{Bool, true, false, ◌++◌, Bytes}
use glacier.Common.Int.{ℤ, pos, ◌+ℤ◌, ◌-ℤ◌, ◌*ℤ◌, ◌/ℤ◌, ◌%ℤ◌, ltb_ℤ, eqb_ℤ}
use glacier.Common.Text.{codes, print_wide}

pub record YearMonthDay : Type 0 where
  pub year : ℤ
  pub month : ℤ
  pub day : ℤ

unfoldable pub get_year_month_day : ℤ → YearMonthDay
get_year_month_day julian_day_number =
    let a = julian_day_number +ℤ pos 32044 in
    let b = (a *ℤ 4 +ℤ pos 3) /ℤ 146097 in
    let c = a -ℤ b *ℤ 146097 /ℤ 4 in
    let d = (c *ℤ 4 +ℤ pos 3) /ℤ 1461 in
    let e = c -ℤ d *ℤ 1461 /ℤ 4 in
    let m = (e *ℤ 5 +ℤ pos 2) /ℤ 153 in
    record {
      year = b *ℤ 100 +ℤ d -ℤ pos 4800 +ℤ m /ℤ 10;
      month = m +ℤ pos 3 -ℤ m /ℤ 10 *ℤ 12;
      day = e -ℤ (m *ℤ 153 +ℤ pos 2) /ℤ 5 +ℤ pos 1;
    }

unfoldable pub get_julian_day_number : ℤ → ℤ → ℤ → ℤ
get_julian_day_number year month day =
    let a = (pos 14 -ℤ month) /ℤ 12 in
    let y = year +ℤ pos 4800 -ℤ a in
    let m = month +ℤ a *ℤ 12 -ℤ pos 3 in
    day +ℤ (m *ℤ 153 +ℤ pos 2) /ℤ 5 +ℤ y *ℤ 365 +ℤ y /ℤ 4 -ℤ y /ℤ 100 +ℤ y /ℤ 400 -ℤ pos 32045

pub record Date : Type 0 where
  pub julian_day_number : ℤ

abbrev pub of_number : ℤ → Date
of_number julian_day_num = record { julian_day_number = julian_day_num }

-- The broken-down time of <time.h>, with the fields that the program reads or writes.
pub record Tm : Type 0 where
  pub tm_sec : ℤ
  pub tm_min : ℤ
  pub tm_hour : ℤ
  pub tm_mday : ℤ
  pub tm_mon : ℤ
  pub tm_year : ℤ
  pub tm_wday : ℤ
  pub tm_yday : ℤ
  pub tm_isdst : Bool
  pub tm_gmtoff : ℤ
  pub tm_zone : Bytes

unfoldable pub of_year_month_day : ℤ → ℤ → ℤ → Date
of_year_month_day y m d = of_number (get_julian_day_number y m d)

-- The constructor from a `struct tm`; the offset of the year is the source's.
unfoldable pub of_tm : Tm → Date
of_tm t = of_year_month_day (t.tm_year +ℤ pos 1970) (t.tm_mon +ℤ pos 1) t.tm_mday

unfoldable pub valid : Date → Bool
valid d = ltb_ℤ (pos 0) d.julian_day_number

unfoldable pub year_month_day : Date → YearMonthDay
year_month_day d = get_year_month_day d.julian_day_number

unfoldable pub week_day : Date → ℤ
week_day d = (d.julian_day_number +ℤ pos 1) %ℤ 7

-- `operator<` and `operator==`.
unfoldable pub lt : Date → Date → Bool
lt x y = ltb_ℤ x.julian_day_number y.julian_day_number

unfoldable pub eq : Date → Date → Bool
eq x y = eqb_ℤ x.julian_day_number y.julian_day_number

-- `toIsoString`.
unfoldable pub to_iso_string : Date → Bytes
to_iso_string d =
    let ymd = year_month_day d in
    print_wide false 4 ymd.year
    ++ (codes "-" ++ (print_wide true 2 ymd.month ++ (codes "-" ++ print_wide true 2 ymd.day)))
