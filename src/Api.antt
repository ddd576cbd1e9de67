-- ===== src/Api.antt =====
-- internal/api: the parts of the S3 front end that keep state in memory.
pub mod ObjCache
mod Examples
