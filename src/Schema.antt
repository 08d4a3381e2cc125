-- ===== src/Schema.antt =====
-- Sets of schemas: src/include/xb/schema_set.hpp, src/lib/schema_set.cpp and the schema model that it reads.
pub mod Model
pub mod Set
pub mod Resolve
pub mod Refs
pub mod Names
pub mod Tables
pub mod Resolved
pub mod Fresh
pub mod Checks
pub mod Laws
pub mod Complete
mod Examples
