-- ===== src/Shard.antt =====
-- crates/gitpixel-core/src/shard.rs: the immutable on-disk shard. A file is the list of its bytes.
pub mod Varint
pub mod Builder
pub mod Writer
pub mod Publish
pub mod Reader
mod Examples
