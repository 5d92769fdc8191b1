-- ===== src/Resolver.antt =====
-- internal/resolver/resolver.go: the closure of the requested Formulae.
-- Topo is `topoOrder`.
pub mod Topo
pub mod Requirements
pub mod Types
pub mod Closure
pub mod Settle
