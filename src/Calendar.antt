-- ===== src/Calendar.antt =====
-- The calendar of the logging library: glacier/base/date.cc and glacier/base/timezone.cc.
pub mod Date
pub mod TimeZone
mod Tests
