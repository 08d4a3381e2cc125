-- ===== src/Rng.antt =====
-- RELAX NG patterns and their simplification: src/include/xb/rng_pattern.hpp and src/lib/rng_simplify.cpp.
pub mod Pattern
pub mod Names
pub mod Bools
pub mod Simplify
pub mod SimpleForm
pub mod MergeLaws
pub mod RefLaws
pub mod Marking
pub mod Reach
pub mod Sound
pub mod Language
pub mod BodyLaws
pub mod Returns
pub mod SimpleFormLaws
pub mod Simple
pub mod Chains
pub mod Kept
pub mod Preserve
mod Examples
