-- ===== src/Temporal.antt =====
-- src/lib/xsd_time_parse.hpp, date.cpp, time.cpp and date_time.cpp: dates and times.
pub mod Lexical
pub mod Calendar
pub mod Settle
pub mod Instant
pub mod Utc
pub mod YearBounds
pub mod Unique
pub mod Date
pub mod Time
pub mod DateTime
pub mod ZoneLaws
pub mod FracLaws
pub mod DigitLaws
pub mod DateLaws
pub mod TimeLaws
pub mod DateTimeLaws
mod Examples
