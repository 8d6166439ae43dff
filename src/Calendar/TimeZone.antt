-- ===== src/Calendar/TimeZone.antt =====
-- glacier/base/timezone.cc and timezone.h, but for the reader of zone files, which is in File.
-- A `time_t` is an integer. `none` stands for what C++ leaves undefined or an assertion stops: an
-- empty zone, a vector read past its end.
pub mod Utc
pub mod Lookup
pub mod File
pub mod ReadBack
use glacier.Common.{
  ℕ, zero, suc, ◌+◌, ◌*◌, ◌/◌, ◌%◌, Bool, true, false, not, ◌&&◌, Option, none, some, List, [], ◌∷◌,
  get_elem?, drop, if◌then◌else◌, Bytes,
}
use mathlib.Core.Option
use glacier.Common.Int.{ℤ, pos, pos_part, ◌+ℤ◌, ◌-ℤ◌, ◌*ℤ◌, ◌/ℤ◌, ◌%ℤ◌, ltb_ℤ, eqb_ℤ, to_int}
use glacier.Common.Text.{codes}
use glacier.Calendar.Date.{
  Tm, Date, get_julian_day_number, of_number, of_year_month_day, year_month_day, week_day,
}

abbrev pub k_seconds_per_day : ℕ
k_seconds_per_day = 24 * 60 * 60

abbrev pub k_julian_day_of_1970_01_01 : ℤ
k_julian_day_of_1970_01_01 = get_julian_day_number (pos 1970) (pos 1) (pos 1)

pub record Transition : Type 0 where
  pub gmttime : ℤ
  pub localtime : ℤ
  pub localtime_idx : ℕ

abbrev pub transition : ℤ → ℤ → ℕ → Transition
transition t l idx = record { gmttime = t; localtime = l; localtime_idx = idx }

pub record Comp : Type 0 where
  pub compare_gmt : Bool

unfoldable pub less : Comp → Transition → Transition → Bool
less c lhs rhs =
    if c.compare_gmt then ltb_ℤ lhs.gmttime rhs.gmttime else ltb_ℤ lhs.localtime rhs.localtime

unfoldable pub equal : Comp → Transition → Transition → Bool
equal c lhs rhs =
    if c.compare_gmt then eqb_ℤ lhs.gmttime rhs.gmttime else eqb_ℤ lhs.localtime rhs.localtime

pub record Localtime : Type 0 where
  pub gmt_offset : ℤ
  pub is_dst : Bool
  pub arrb_idx : ℕ

pub record Data : Type 0 where
  pub transitions : List Transition
  pub localtimes : List Localtime
  pub abbreviation : Bytes

-- `std::lower_bound`: the first element that is not below the sentry, with the one before it.
unfoldable pub lower_bound :
    Comp → Transition → Transition → List Transition → Transition × Option Transition
lower_bound comp sentry before [] = (before, none)
lower_bound comp sentry before (t ∷ ts) =
    if less comp t sentry then lower_bound comp sentry t ts else (before, some t)

-- The transition that holds at the sentry, once the first one is not after it.
unfoldable pub pick : Comp → Transition → Transition × Option Transition → ℕ
pick comp sentry (before, none) = before.localtime_idx
pick comp sentry (before, some t) =
    if equal comp sentry t then t.localtime_idx else before.localtime_idx

unfoldable pub find_in : List Transition → List Localtime → Transition → Comp → Option Localtime
find_in [] localtimes sentry comp = get_elem? localtimes 0
find_in (t ∷ ts) localtimes sentry comp =
    if less comp sentry t
    then get_elem? localtimes 0
    else get_elem? localtimes (pick comp sentry (lower_bound comp sentry t (t ∷ ts)))

unfoldable pub find_localtime : Data → Transition → Comp → Option Localtime
unfolding find_in lower_bound pick less equal
find_localtime d = find_in d.transitions d.localtimes

-- The constructor for a fixed offset.
unfoldable pub fixed_zone : ℤ → Bytes → Data
fixed_zone east_of_utc name = record {
  transitions = [];
  localtimes = record { gmt_offset = east_of_utc; is_dst = false; arrb_idx = 0 } ∷ [];
  abbreviation = name;
}

-- The broken-down time of zeroes, as `memset` leaves it.
abbrev pub zero_tm : Tm
zero_tm = record {
  tm_sec = pos 0;
  tm_min = pos 0;
  tm_hour = pos 0;
  tm_mday = pos 0;
  tm_mon = pos 0;
  tm_year = pos 0;
  tm_wday = pos 0;
  tm_yday = pos 0;
  tm_isdst = false;
  tm_gmtoff = pos 0;
  tm_zone = [];
}

unfoldable pub fill_hms : ℕ → Tm → Tm
fill_hms seconds utc =
    let minutes = seconds / 60 in
    record utc {
      tm_sec = pos (seconds % 60);
      tm_min = pos (minutes % 60);
      tm_hour = pos (minutes / 60);
    }

-- The body of `to_utc_time`, from the seconds in the day, which are not negative, and the days.
unfoldable pub utc_of_days : ℕ → ℤ → Bool → Tm
utc_of_days seconds days yday =
    let utc = fill_hms seconds (record zero_tm { tm_zone = codes "GMT" }) in
    let date = of_number (days +ℤ k_julian_day_of_1970_01_01) in
    let ymd = year_month_day date in
    let start_of_year = of_year_month_day ymd.year (pos 1) (pos 1) in
    record utc {
      tm_year = ymd.year -ℤ pos 1900;
      tm_mon = ymd.month -ℤ pos 1;
      tm_mday = ymd.day;
      tm_wday = week_day date;
      tm_yday =
          if yday then date.julian_day_number -ℤ start_of_year.julian_day_number else utc.tm_yday;
    }

unfoldable pub to_utc_time : ℤ → Bool → Tm
to_utc_time seconds_since_epoch yday =
    let seconds = to_int (seconds_since_epoch %ℤ k_seconds_per_day) in
    let days = to_int (seconds_since_epoch /ℤ k_seconds_per_day) in
    if ltb_ℤ seconds (pos 0)
    then utc_of_days (pos_part (seconds +ℤ pos k_seconds_per_day)) (days -ℤ pos 1) yday
    else utc_of_days (pos_part seconds) days yday

unfoldable pub from_utc_fields : ℤ → ℤ → ℤ → ℤ → ℤ → ℤ → ℤ
from_utc_fields year month day hour minute seconds =
    let date = of_year_month_day year month day in
    let seconds_in_day = hour *ℤ 3600 +ℤ minute *ℤ 60 +ℤ seconds in
    let days = date.julian_day_number -ℤ k_julian_day_of_1970_01_01 in
    days *ℤ k_seconds_per_day +ℤ seconds_in_day

unfoldable pub from_utc_time : Tm → ℤ
from_utc_time utc =
    from_utc_fields (utc.tm_year +ℤ pos 1900) (utc.tm_mon +ℤ pos 1) utc.tm_mday utc.tm_hour
      utc.tm_min utc.tm_sec

-- `gmtime_r` and `timegm` are the C library's.
module _ (gmtime : ℤ → Tm) (timegm : Tm → ℤ) where
  unfoldable pub to_local_time : Data → ℤ → Option Tm
  to_local_time d seconds =
      let sentry = transition seconds (pos 0) 0 in
      Option.map
        (λ local. record (gmtime (seconds +ℤ local.gmt_offset)) {
          tm_isdst = local.is_dst;
          tm_gmtoff = local.gmt_offset;
          tm_zone = drop local.arrb_idx d.abbreviation;
        })
        (find_localtime d sentry (record { compare_gmt = true }))

  -- The branch for a time in summer: what it takes off, by the local time that was tried.
  unfoldable pub dst_correction : Tm → Tm → ℤ → ℤ
  dst_correction local_tm try_tm seconds =
      if not try_tm.tm_isdst
        && eqb_ℤ try_tm.tm_hour local_tm.tm_hour
        && eqb_ℤ try_tm.tm_min local_tm.tm_min
      then seconds -ℤ pos 3600
      else seconds

  unfoldable pub from_local_time : Data → Tm → Option ℤ
  from_local_time d local_tm =
      let seconds = timegm local_tm in
      let sentry = transition (pos 0) seconds 0 in
      Option.bind (find_localtime d sentry (record { compare_gmt = false })) λ local.
        if local_tm.tm_isdst
        then Option.map (λ try_tm. dst_correction local_tm try_tm seconds -ℤ local.gmt_offset)
            (to_local_time d (seconds -ℤ local.gmt_offset))
        else some (seconds -ℤ local.gmt_offset)
