-- ===== src/Catalog.antt =====
-- The versioned catalog (marie-core/src/catalog): its store in memory and the facade over it.
pub mod Store
pub mod Facade
pub mod Versions
pub mod History
mod Examples
