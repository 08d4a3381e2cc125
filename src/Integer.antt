-- ===== src/Integer.antt =====
-- src/lib/integer.cpp: arbitrary-precision integers as a sign and a vector of 32-bit limbs.
pub mod Magnitude
pub mod Value
pub mod AddSub
pub mod Mul
pub mod Compare
pub mod Divmod
pub mod Ops
pub mod Decimal
pub mod Words
pub mod Ring
pub mod Order
pub mod RoundTrip
pub mod Bits
pub mod Shift
pub mod SetBit
pub mod Division
pub mod Truncated
pub mod WordLaws
mod Examples
