-- ===== src/Storage.antt =====
-- src/storage: the transactions, inserts and tables of an attached Quack catalog.
pub mod Transaction
pub mod Insert
pub mod CatalogSet
pub mod Entries
pub mod Schema
pub mod Load
pub mod Catalog
pub mod Manager
pub mod CreateTableAs
mod Sample
mod Tests
mod InsertTests
mod SchemaTests
mod CatalogTests
