-- ===== src/Lifecycle/Listing.antt =====
-- internal/lifecycle/manager.go: ListKeyIDs and countKeys, which page through the metadata of all
-- keys.
pub mod Defs
pub mod Pages
pub mod Reaper
