-- ===== src/Trees.antt =====
-- core/entry_codec.py and core/objects/query.py: tree nodes and the walks over them.
pub mod Entry
pub mod Codec
pub mod Walker
pub mod Lookup
pub mod Node
pub mod Writer
pub mod Merge
