-- ===== src/Collection.antt =====
-- collection/collection.go: sets backed by a map, slice helpers, and helpers that build maps.
pub mod Set
pub mod Slices
pub mod Keyed
mod Tests
