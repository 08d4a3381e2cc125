-- ===== src/Duration.antt =====
-- `xs:duration` and `xs:yearMonthDuration`: src/lib/duration.cpp and src/lib/year_month_duration.cpp.
pub mod Scan
pub mod YearMonth
pub mod Months
pub mod MonthsParts
pub mod MonthsText
pub mod Full
pub mod Fuel
pub mod Runs
pub mod FullLaws
pub mod FullText
pub mod RoundTrip
mod Examples
