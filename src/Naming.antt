-- ===== src/Naming.antt =====
-- C++ names for the names and the namespaces of a schema: src/lib/naming.cpp.
pub mod Style
pub mod Identifier
pub mod Namespace
pub mod StyleLaws
pub mod SnakeLaws
pub mod IdentifierLaws
pub mod JoinedNames
pub mod NamespaceLaws
pub mod ChosenLaws
mod Examples
