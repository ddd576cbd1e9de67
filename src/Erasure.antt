-- ===== src/Erasure.antt =====
-- internal/erasure: one erasure set, its quorums, the metadata of objects and how it is read and
-- committed.
pub mod Quorum
pub mod XlMeta
pub mod ReadMeta
pub mod Commit
pub mod Config
pub mod Mrf
pub mod Names
pub mod Listing
pub mod Buckets
pub mod Versions
mod Examples
