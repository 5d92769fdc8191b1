-- ===== src/CatalogService.antt =====
-- internal/catalogservice/store.go: the sequence numbers of the catalog service.
pub mod Sequence
