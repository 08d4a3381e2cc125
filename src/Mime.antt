-- ===== src/Mime.antt =====
-- MIME multipart messages: src/include/xb/mime_multipart.hpp and src/lib/mime_multipart.cpp.
pub mod Multipart
pub mod HeaderLaws
pub mod RoundTrip
pub mod ContentType
mod Examples
