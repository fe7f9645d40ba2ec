-- ===== src/Shard/Reader/Written.antt =====
-- What `Shard::open` and `Shard::postings` of shard.rs read from the bytes that `ShardBuilder::write` wrote.
mod Fields
mod Layout
mod Head
mod Texts
mod Sizes
mod Opens
mod Records
mod Search
mod Reads
mod Lookup
mod Codec
mod Examples
