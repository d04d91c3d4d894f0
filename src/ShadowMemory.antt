-- ===== src/ShadowMemory.antt =====
-- src_light/shadowmemory.{hh,cpp}
pub mod PageMapEntry
pub mod CacheMapEntry
pub mod PageIndex
pub mod Extents
pub mod Pages
pub mod ConflictData
pub mod Coherency
pub mod CacheMap
pub mod Lines
pub mod Objects
pub mod Access
pub mod Initialize
