-- ===== src/Timestamp.antt =====
-- `Timestamp` of glacier/base/timestamp.h and timestamp.cc, and what glacier/base/current_thread.cc keeps of
-- a thread. `gmtime_r` of the C library is an argument, and so is what the kernel answers.
pub mod ReadBack
pub mod Tests
use glacier.Common.{
  ℕ, ◌*◌, Bool, true, false, Option, none, some, List, [], ◌∷◌, ◌++◌, if◌then◌else◌, ◌==◌, length,
  Bytes,
}
use glacier.Common.Int.{ℤ, pos, ◌+ℤ◌, ◌-ℤ◌, ◌*ℤ◌, ◌/ℤ◌, ◌%ℤ◌, ltb_ℤ, eqb_ℤ}
use glacier.Common.Text.{codes, print_wide}
use glacier.Calendar.Date.{Tm}

abbrev pub k_micro_seconds_per_second : ℕ
k_micro_seconds_per_second = 1000 * 1000

pub record Timestamp : Type 0 where
  pub micro_seconds_since_epoch : ℤ

abbrev pub timestamp : ℤ → Timestamp
timestamp micros = record { micro_seconds_since_epoch = micros }

-- The constructor without arguments, and `invalid`.
abbrev pub invalid : Timestamp
invalid = timestamp (pos 0)

unfoldable pub valid : Timestamp → Bool
valid t = ltb_ℤ (pos 0) t.micro_seconds_since_epoch

abbrev pub seconds_since_epoch : Timestamp → ℤ
seconds_since_epoch t = t.micro_seconds_since_epoch /ℤ k_micro_seconds_per_second

abbrev pub micros_of : Timestamp → ℤ
micros_of t = t.micro_seconds_since_epoch %ℤ k_micro_seconds_per_second

-- `fromUnixTime` with microseconds.
unfoldable pub from_unix_time : ℤ → ℤ → Timestamp
from_unix_time t microseconds = timestamp (t *ℤ k_micro_seconds_per_second +ℤ microseconds)

-- `now`, of what `gettimeofday` answers.
abbrev pub now : ℤ → ℤ → Timestamp
now tv_sec tv_usec = timestamp (tv_sec *ℤ k_micro_seconds_per_second +ℤ tv_usec)

-- `timeDifference` and `addTime`. What the source does in floating point is an argument: the quotient of
-- the difference by a million, and the product of the seconds with a million as an `int64_t`.
abbrev pub time_difference : {D : Type 0} → (ℤ → D) → Timestamp → Timestamp → D
time_difference quotient high low =
    quotient (high.micro_seconds_since_epoch -ℤ low.micro_seconds_since_epoch)

abbrev pub add_time : {D : Type 0} → (D → ℤ) → Timestamp → D → Timestamp
add_time product t seconds = timestamp (t.micro_seconds_since_epoch +ℤ product seconds)

-- The operators.
unfoldable pub less : Timestamp → Timestamp → Bool
less lhs rhs = ltb_ℤ lhs.micro_seconds_since_epoch rhs.micro_seconds_since_epoch

unfoldable pub equal : Timestamp → Timestamp → Bool
equal lhs rhs = eqb_ℤ lhs.micro_seconds_since_epoch rhs.micro_seconds_since_epoch

-- `toString`, whose buffer is longer than any text of it.
unfoldable pub timestamp_text : Timestamp → Bytes
timestamp_text t =
    print_wide false 0 (seconds_since_epoch t) ++ (codes "." ++ print_wide true 6 (micros_of t))

-- `toFormattedString`.
unfoldable pub to_formatted_string : (ℤ → Tm) → Bool → Timestamp → Bytes
to_formatted_string gmtime show_microseconds t =
    let tm_time = gmtime (seconds_since_epoch t) in
    print_wide false 4 (tm_time.tm_year +ℤ pos 1900)
    ++ (print_wide true 2 (tm_time.tm_mon +ℤ pos 1)
        ++ (print_wide true 2 tm_time.tm_mday
            ++ (codes " "
                ++ (print_wide true 2 tm_time.tm_hour
                    ++ (codes ":"
                        ++ (print_wide true 2 tm_time.tm_min
                            ++ (codes ":"
                                ++ (print_wide true 2 tm_time.tm_sec
                                    ++ (if show_microseconds
                                        then codes "." ++ print_wide true 6 (micros_of t)
                                        else [])))))))))

-- `CurrentThread`: the thread's number, 0 until it was asked for, and its text.
pub record ThreadCache : Type 0 where
  pub cached_tid : ℕ
  pub tid_string : Bytes
  pub tid_string_length : ℕ

abbrev pub new_thread : ThreadCache
new_thread = record { cached_tid = 0; tid_string = []; tid_string_length = 6 }

-- `cacheTid`, with what the kernel answers.
unfoldable pub cache_tid : ℕ → ThreadCache → ThreadCache
cache_tid gettid c =
    if c.cached_tid == 0
    then record {
      cached_tid = gettid;
      tid_string = print_wide false 5 (pos gettid) ++ codes " ";
      tid_string_length = length (print_wide false 5 (pos gettid) ++ codes " ");
    }
    else c

-- `tid`: its result and the cache behind it.
unfoldable pub tid : ℕ → ThreadCache → ℕ × ThreadCache
tid gettid c = let c' = if c.cached_tid == 0 then cache_tid gettid c else c in (c'.cached_tid, c')

-- `sleepUsec`: the seconds and nanoseconds that `nanosleep` is given.
unfoldable pub sleep_usec : ℤ → ℤ × ℤ
sleep_usec usec = (usec /ℤ k_micro_seconds_per_second, (usec %ℤ k_micro_seconds_per_second) *ℤ 1000)
