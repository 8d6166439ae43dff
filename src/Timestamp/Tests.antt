-- ===== src/Timestamp/Tests.antt =====
-- Runs of glacier/base/timestamp.cc and current_thread.cc, and an instance of the theorem.
use glacier.Common.{◌≡◌, refl}
use glacier.Common.Int.{pos, ◌/ℤ◌, ◌%ℤ◌, ◌*ℤ◌, ◌+ℤ◌}
use glacier.Common.Text.{codes, print_wide, to_string}
use glacier.Timestamp.{from_unix_time, timestamp_text, new_thread, tid, cache_tid}

text_test : timestamp_text (from_unix_time (pos 12) (pos 34)) ≡ codes "12.000034"
unfolding timestamp_text from_unix_time print_wide to_string ◌/ℤ◌ ◌%ℤ◌ ◌*ℤ◌ ◌+ℤ◌
text_test = refl

-- The second call does not ask the kernel again.
tid_test : (tid 9 (tid 7 new_thread).1).0 ≡ 7
unfolding tid cache_tid
tid_test = refl
