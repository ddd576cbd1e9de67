-- ===== src/Auth.antt =====
-- internal/auth: the bodies of signed uploads.
pub mod Chunked
