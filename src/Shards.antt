-- ===== src/Shards.antt =====
-- scripts/make_shards.py: the CSV's rows become 20-byte records, dealt round-robin to the nodes.
pub mod Search
pub mod Strptime
pub mod Fields
pub mod Deal
